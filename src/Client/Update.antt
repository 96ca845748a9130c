-- ===== src/Client/Update.antt =====
-- src/client/session/session.cpp: both functions Update. A handler's exception is caught; an assertion
-- that fails and an access outside a block are none.
use project_secure_chat.Base.{
  ℕ, Bool, true, false, Option, none, some, List, [], ◌∷◌, leb, if◌then◌else◌, get_elem?,
}
use project_secure_chat.Base.Result.{
  Result, Error, ok, err, position, source, length_error, invalid_argument, assertion,
  out_of_bounds, ◌>>=◌,
}
use project_secure_chat.Crypto.OpenSsl.{OpenSsl}
use project_secure_chat.Opcode.Defs.{
  SessionReqStatus, logging, logged, transfer, logout, never, unhandled, OpcodeHandler,
  ClientHandler, num_msg_types, client_opcode_table,
}
use project_secure_chat.Packet.Defs.{Packet}
use project_secure_chat.Peer.State.{Peer, is_authenticated}
use project_secure_chat.Login.Run.{M, Send}
use project_secure_chat.Login.Client.{handle_login, handle_refresh_key}
use project_secure_chat.Xml.Defs.{TinyXml}
use project_secure_chat.Client.Screen.{Client, Printf}
use project_secure_chat.Client.Session.{
  handle_message, handle_whisp, handle_server_message, handle_join_channel, handle_leave_channel,
  handle_queue_pos, handle_channel_users_list,
}

-- The libraries, SendPacketToSocket, the time of day and vasprintf.
pub record Setup : Type 0 where
  pub ssl : OpenSsl
  pub xml : TinyXml
  pub be : Bool
  pub send : Send
  pub now : List ℕ
  pub vasprintf : Printf

-- catch (...)
settle : Error → Client → Result Client
settle position c = ok c
settle source c = ok c
settle length_error c = ok c
settle invalid_argument c = ok c
settle assertion c = err assertion
settle out_of_bounds c = err out_of_bounds

caught : Result Client → Client → Result Client
caught (ok c') c = ok c'
caught (err e) c = settle e c

on_peer : Result (Unit {0}) × Peer → Client → Result Client
on_peer (ok t, s) c = ok (record c { peer = s })
on_peer (err e, s) c = settle e (record c { peer = s })

found_row : Option (OpcodeHandler ClientHandler) → Result (OpcodeHandler ClientHandler)
found_row none = err out_of_bounds
found_row (some r) = ok r

module _ (u : Setup) where
  -- The handlers, by their name in the table.
  unfoldable pub call : ClientHandler → Packet → Client → Result Client
  unfolding settle caught on_peer
  call ClientHandler.handle_null p c = ok c
  call ClientHandler.handle_client_side p c = ok c
  call ClientHandler.handle_ping p c = ok c
  call ClientHandler.handle_queue_pos p c = caught (handle_queue_pos u.xml u.be u.now p.buffer c) c
  call ClientHandler.handle_server_message p c =
      caught (handle_server_message u.xml u.be u.now u.vasprintf p.buffer c) c
  call ClientHandler.handle_message p c = caught (handle_message u.xml u.be u.now p.buffer c) c
  call ClientHandler.handle_whisp p c = caught (handle_whisp u.xml u.be u.now p.buffer c) c
  call ClientHandler.handle_join_channel p c =
      caught (handle_join_channel u.xml u.be u.now p.buffer c) c
  call ClientHandler.handle_leave_channel p c =
      caught (handle_leave_channel u.xml u.be u.now p.buffer c) c
  call ClientHandler.handle_login p c = on_peer (handle_login u.ssl u.be u.send p c.peer) c
  call ClientHandler.handle_refresh_key p c =
      on_peer (handle_refresh_key u.ssl u.be u.send p c.peer) c
  call ClientHandler.handle_channel_users_list p c =
      caught (handle_channel_users_list u.xml u.be u.now p.buffer c) c

  -- The switch of Update().
  unfoldable pub dispatch : SessionReqStatus → ClientHandler → Packet → Client → Result Client
  dispatch logging h p c = call h p c
  dispatch logged h p c = if is_authenticated c.peer then call h p c else ok c
  dispatch transfer h p c = ok c
  dispatch logout h p c = ok c
  dispatch never h p c = ok c
  dispatch unhandled h p c = ok c

  -- What is done with a packet; `by` is the switch.
  unfoldable pub handle_packet :
      (SessionReqStatus → ClientHandler → Packet → Client → Result Client)
      → Packet
      → Client
      → Result Client
  unfolding found_row
  handle_packet by p c =
      if leb num_msg_types p.opcode
      then ok c
      else (do r ← found_row (get_elem? client_opcode_table p.opcode); by r.status r.handler p c)

  received : Result (Option Packet) × Peer → Client → Result (Bool × Client)
  received (err e, s) c = err e
  received (ok none, s) c = ok (false, record c { peer = s })
  received (ok (some p), s) c = do
    c' ← handle_packet dispatch p (record c { peer = s })
    ok (c'.peer.opened, c')

  -- Update(), over RecvPacketFromSocket.
  unfoldable pub update : M (Option Packet) → Client → Result (Bool × Client)
  unfolding received
  update recv c = received (recv c.peer) c

  -- The switch of Update(diff), which does not ask whether the session has logged in.
  unfoldable pub dispatch_queued :
      SessionReqStatus → ClientHandler → Packet → Client → Result Client
  dispatch_queued logging h p c = ok c
  dispatch_queued logged h p c = call h p c
  dispatch_queued transfer h p c = ok c
  dispatch_queued logout h p c = ok c
  dispatch_queued never h p c = ok c
  dispatch_queued unhandled h p c = ok c

  drain : List Packet → Client → Result (Client × List Packet)
  drain [] c = ok (c, [])
  drain (p ∷ ps) c = elim c.peer.opened [
    | false ↦ ok (c, p ∷ ps)
    | true ↦ elim (handle_packet dispatch_queued p c) [ err e ↦ err e | ok c' ↦ drain ps c' ]
  ]

  -- Update(diff), over the queue of received packets.
  unfoldable pub update_queued : List Packet → Client → Result (Bool × (Client × List Packet))
  unfolding drain
  update_queued ps c = do (c', rest) ← drain ps c; ok (c'.peer.opened, (c', rest))
