-- ===== src/Wire/Socket.antt =====
-- src/shared/session/sessionbase.cpp: SendPacketToSocket and RecvPacketFromSocket, on the bytes that
-- pass the socket. An exception leaves the session as it is at that moment; both functions catch
-- ByteBufferPositionException and nothing else. The block that a caller lends has room.
use project_secure_chat.Base.{
  ℕ, suc, ◌%◌, ◌^◌, Bool, false, not, ◌&&◌, Option, none, some, List, [], ◌∷◌, ◌++◌, ltb, leb, ◌==◌,
  if◌then◌else◌, length,
}
use project_secure_chat.Base.Result.{
  Result, ok, err, position, source, length_error, invalid_argument, assertion, out_of_bounds,
}
use project_secure_chat.Buffer.Words.{w16, encode}
use project_secure_chat.Buffer.Defs.{size, append_from}
use project_secure_chat.Crypto.OpenSsl.{OpenSsl}
use project_secure_chat.Opcode.Defs.{num_msg_types}
use project_secure_chat.Packet.Defs.{Packet, new_packet, incapsulate, decapsulate}
use project_secure_chat.Packet.Seal.{encrypt}
use project_secure_chat.Packet.Unseal.{decrypt}
use project_secure_chat.Peer.State.{Peer, is_encrypted, is_symmetric, close}
use project_secure_chat.Login.Run.{M, after, ◌>>=◌, ◌>>◌, lift, get, become, modify, after_send}
use project_secure_chat.Wire.Params.{mode_of, seal_params, open_params}

-- What the catch clause leaves: it closes the socket.
unfoldable pub caught : {A : Type 0} → A → Result A × Peer → Result A × Peer
caught failed (ok a, s) = (ok a, s)
caught failed (err position, s) = (ok failed, close s)
caught failed (err source, s) = (err source, s)
caught failed (err length_error, s) = (err length_error, s)
caught failed (err invalid_argument, s) = (err invalid_argument, s)
caught failed (err assertion, s) = (err assertion, s)
caught failed (err out_of_bounds, s) = (err out_of_bounds, s)

module _ (o : OpenSsl) (be : Bool) where
  -- Encrypt's return value is not looked at. It draws up to two times.
  unfoldable pub seal_frame : Packet → M Packet
  seal_frame pct s =
      if is_encrypted s && ltb 0 (size pct.buffer)
      then (do
        par ← lift (seal_params be s.enc s)
        (done, pct') ← lift (encrypt o be s.draws par (record pct { mode = mode_of s.enc }))
        modify (λ s. record s { draws = suc (suc s.draws) })
        lift (ok pct'))
          s
      else (ok pct, s)

  -- The length goes in front, as the machine keeps it.
  abbrev pub block_of : Packet → List ℕ
  block_of pct = encode false w16 (size pct.buffer % 2 ^ 16) ++ pct.buffer.storage

  unfoldable pub give : ℕ → Packet → M (Unit {0})
  give now pkt = do
    s ← get
    (pct, n) ← lift (incapsulate be (is_symmetric s) now pkt s.id_send (new_packet 0))
    become (record s { id_send = n })
    pct' ← seal_frame pct
    modify (λ s. record s { sent = s.sent ++ pkt ∷ []; wire = s.wire ++ block_of pct' ∷ [] })
    modify (after_send pkt.opcode)

  -- SendPacketToSocket
  unfoldable pub send_packet_to_socket : ℕ → Packet → M (Unit {0})
  unfolding caught seal_frame give
  send_packet_to_socket now pkt s = if not s.opened then (ok tt, s) else caught tt (give now pkt s)

  -- `dir`: where the server keeps the keys of the clients, see Packet/Unseal.
  open_frame : Option (List ℕ) → Packet → M Packet
  open_frame dir pct s =
      if is_encrypted s
      then (do
        par ← lift (open_params be s.enc s)
        (done, pct') ← lift (decrypt o be dir par (record pct { mode = mode_of s.enc }))
        lift (ok pct'))
          s
      else (ok pct, s)

  take_frame : Option (List ℕ) → ℕ → List ℕ → M (Option Packet)
  take_frame dir now body = do
    let p = new_packet 0
    b ← lift (append_from body (length body) p.buffer)
    pct ← open_frame dir (record p { buffer = b })
    s ← get
    (pkt, n) ← lift (decapsulate be (is_symmetric s) now s.id_receive pct.buffer)
    become (record s { id_receive = n })
    lift (ok pkt)

  -- A length of 0 gives the empty packet that was made for the contents.
  take_block : Option (List ℕ) → ℕ → ℕ → List ℕ → M (Option Packet)
  take_block dir now len body s =
      if ltb 65000 len
      then (ok none, close s)
      else if len == 0
      then (ok (some (new_packet 0)), s)
      else take_frame dir now body s

  valid_opcode : Option Packet → M (Option Packet)
  valid_opcode none s = (ok none, s)
  valid_opcode (some p) s =
      if leb num_msg_types p.opcode then (ok none, close s) else (ok (some p), s)

  -- RecvPacketFromSocket, where the socket's Recv gives first a length of two bytes, then a body of
  -- that length.
  unfoldable pub recv_packet_from_socket : Option (List ℕ) → ℕ → ℕ → List ℕ → M (Option Packet)
  unfolding caught open_frame take_frame take_block valid_opcode
  recv_packet_from_socket dir now len body s =
      if not s.opened
      then (ok none, s)
      else after (caught none (take_block dir now len body s)) valid_opcode
