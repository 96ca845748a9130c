-- ===== src/Wire/Kept.antt =====
-- src/shared/session/sessionbase.cpp: what SendPacketToSocket does not change, whether it returns or
-- throws.
use project_secure_chat.Base.{
  ℕ, inl, inr, Bool-cases, Bool, true, false, ◌&&◌, [], ◌∷◌, ◌++◌, ltb, ◌==◌, not, if◌then◌else◌,
}
use project_secure_chat.Base.Result.{
  Result, ok, err, position, source, length_error, invalid_argument, assertion, out_of_bounds,
}
use project_secure_chat.Buffer.Defs.{size}
use project_secure_chat.Crypto.OpenSsl.{OpenSsl}
use project_secure_chat.Opcode.Defs.{smsg_refresh_key}
use project_secure_chat.Packet.Defs.{Packet, new_packet, incapsulate}
use project_secure_chat.Packet.Seal.{encrypt}
use project_secure_chat.Peer.State.{
  Peer, is_encrypted, is_symmetric, close, asymmetric, set_encryption_key, set_encryption,
  set_next_encryption, reset_packet_num,
}
use project_secure_chat.Login.Run.{after_send}
use project_secure_chat.Login.Kept.{In, after_kept, lift_kept}
use project_secure_chat.Wire.Params.{mode_of, seal_params}
use project_secure_chat.Wire.Socket.{send_packet_to_socket, caught, seal_frame, give, block_of}

caught_kept : {A : Type 0} (a : A) (r : Result A × Peer) → In r.1 → In (caught a r).1
unfolding caught close
caught_kept a (ok b, s) h = h
caught_kept a (err position, s) h = h
caught_kept a (err source, s) h = h
caught_kept a (err length_error, s) h = h
caught_kept a (err invalid_argument, s) h = h
caught_kept a (err assertion, s) h = h
caught_kept a (err out_of_bounds, s) h = h

after_send_kept : (opcode : ℕ) (s : Peer) → In s → In (after_send opcode s)
unfolding after_send set_encryption_key set_encryption set_next_encryption reset_packet_num
after_send_kept opcode s h = elim (Bool-cases s.server) [
  | inr e ↦ rw e h
  | inl e ↦ elim (Bool-cases (opcode == smsg_refresh_key && s.change_keys == 1)) [
    | inl f ↦ rw (e, f) h
    | inr f ↦ elim (Bool-cases (asymmetric s.next_enc)) [
      | inl g ↦ rw (e, f, g) h
      | inr g ↦ rw (e, f, g) h
    ]
  ]
]

module _ (o : OpenSsl) (be : Bool) where
  seal_kept : (pct : Packet) (s : Peer) → In s → In (seal_frame o be pct s).1
  unfolding seal_frame
  seal_kept pct s h = elim (Bool-cases (is_encrypted s && ltb 0 (size pct.buffer))) [
    | inr e ↦ rw e h
    | inl e ↦ rw e (
        lift_kept In (seal_params be s.enc s) s _ h (λ par.
          lift_kept In (encrypt o be s.draws par (record pct { mode = mode_of s.enc })) s _ h
            (λ (done, pct'). h)))
  ]

  give_kept : (now : ℕ) (pkt : Packet) (s : Peer) → In s → In (give o be now pkt s).1
  unfolding give
  give_kept now pkt s h =
      lift_kept In (incapsulate be (is_symmetric s) now pkt s.id_send (new_packet 0)) s _ h
        (λ (pct, n).
          after_kept In (seal_frame o be pct (record s { id_send = n })) _ (seal_kept pct _ h)
            (λ pct' s1 h1.
              after_send_kept pkt.opcode
                (record s1 {
                  sent = s1.sent ++ pkt ∷ [];
                  wire = s1.wire ++ block_of o be pct' ∷ [];
                })
                h1))

  -- A session that has logged in stays so.
  pub send_kept :
      (now : ℕ) (pkt : Packet) (s : Peer) → In s → In (send_packet_to_socket o be now pkt s).1
  unfolding send_packet_to_socket
  send_kept now pkt s h =
      elim s.opened as (λ b. In (if not b then (ok tt, s) else caught tt (give o be now pkt s)).1) [
        | false ↦ h
        | true ↦ caught_kept tt (give o be now pkt s) (give_kept now pkt s h)
      ]
