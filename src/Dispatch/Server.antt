-- ===== src/Dispatch/Server.antt =====
-- src/server/session/session.cpp: Session::Update of the server. What the loop asks of the session, and
-- what a handler leaves of it, are fields of `Actions`: the loop catches whatever a handler throws. The
-- queue of received packets is the list of its items, which no handler changes.
use project_secure_chat.Base.{ℕ, Bool, true, false, ◌&&◌, List, [], ◌∷◌, leb, if◌then◌else◌}
use project_secure_chat.Base.Result.{Result, ok, err, ◌>>=◌}
use project_secure_chat.Opcode.Defs.{
  SessionReqStatus, logging, logged, transfer, logout, never, unhandled, ServerHandler,
  num_msg_types,
}
use project_secure_chat.Opcode.Filter.{lookup_handler, map_filter, single_filter}
use project_secure_chat.Packet.Defs.{Packet}

-- `opened`: m_Socket is there and not closed. `act`: what the call of a handler leaves, whether it
-- returns or throws. `timers`: LoginTimer and GenerateNewKey, which stand outside the try block.
pub record Actions {ℓ} (S : Type ℓ) : Type ℓ where
  pub opened : S → Bool
  pub authenticated : S → Bool
  pub in_channel : S → Bool
  pub in_queue : S → Bool
  pub act : ServerHandler → Packet → S → S
  pub timers : ℕ → S → Result S

module _ {ℓ} {S : Type ℓ} (ops : Actions S) where
  -- The switch on the status that the row asks for.
  unfoldable pub serve : SessionReqStatus → ServerHandler → Packet → S → S
  serve logging h p s = if ops.in_queue s then s else ops.act h p s
  serve transfer h p s = if ops.in_channel s then s else ops.act h p s
  serve logged h p s = if ops.authenticated s then ops.act h p s else s
  serve logout h p s = s
  serve never h p s = s
  serve unhandled h p s = s

  -- What is done with a packet that the filter let pass.
  unfoldable pub process : Packet → S → Result S
  process p s =
      if leb num_msg_types p.opcode
      then ok s
      else (do r ← lookup_handler p.opcode; ok (serve r.status r.handler p s))

  -- The filter of the update: SingleSessionFilter, or MapSessionFilter.
  abbrev pub passes : Bool → Packet → S → Result Bool
  passes true p s = single_filter (ops.in_channel s) p.opcode
  passes false p s = map_filter (ops.in_channel s) p.opcode

  -- The loop: the session, and what is left in the queue.
  unfoldable pub pump : Bool → List Packet → S → Result (S × List Packet)
  pump single [] s = ok (s, [])
  pump single (p ∷ ps) s = elim (ops.opened s) [
    | false ↦ ok (s, p ∷ ps)
    | true ↦ elim (passes single p s) [
      | err e ↦ err e
      | ok false ↦ ok (s, p ∷ ps)
      | ok true ↦ elim (process p s) [ err e ↦ err e | ok s' ↦ pump single ps s' ]
    ]
  ]

  -- Update(diff, updater): whether the socket is still open, the session and the queue.
  unfoldable pub update : Bool → ℕ → List Packet → S → Result (Bool × (S × List Packet))
  update single diff ps s = do
    s1 ← if ops.opened s && single then ops.timers diff s else ok s
    (s2, rest) ← pump single ps s1
    ok (ops.opened s2, (s2, rest))
