-- ===== src/Login/Checking.antt =====
-- The third step of the login from the packet on, and what the client makes of the acceptance.
use project_secure_chat.Wire.Hybrid.{HasKeys}
use project_secure_chat.Peer.State.{hyb, server_key_filenames}
use project_secure_chat.Base.{
  ℕ, ◌+◌, ◌≤◌, ◌≡◌, refl, sym, ap, ◌∙◌, Bool, true, List, [], ◌∷◌, ◌++◌, length, length-append,
  codes, le→ltb, arith,
}
use mathlib.Core.List.{append_assoc, append-nil}
use project_secure_chat.Base.Result.{ok}
use project_secure_chat.Buffer.Words.{w32}
use project_secure_chat.Buffer.Append.{IsValid, extend, extend-IsValid}
use project_secure_chat.Buffer.Read.{unread, advance, read_lem}
use project_secure_chat.Buffer.Text.{NonZero}
use project_secure_chat.Buffer.Fields.{text_Gives, block_Gives}
use project_secure_chat.Crypto.OpenSsl.{OpenSsl}
use project_secure_chat.Crypto.Keys.{Bytes, xor_buffer_lem}
use project_secure_chat.Peer.State.{
  Peer, Config, login_step_2, unspec, aes256, set_encryption_key, reset_packet_num,
  set_session_status, set_temp_username,
}
use project_secure_chat.Login.Run.{Send, IsTransport}
use project_secure_chat.Login.Server
use project_secure_chat.Login.Client
use project_secure_chat.Login.Parts.{
  IsRandom, filled, filled-IsValid, fill_bytes, other_nonce_lem, check_nonce_lem, bytes_eq_self,
}
use project_secure_chat.Login.Greeting.{answer}
use project_secure_chat.Login.Accepting.{
  accepted, accept_user_lem, acceptance, shared_key, nonce_value,
}

module _ (o : OpenSsl) (law : IsRandom o) (be : Bool) (send : Send) (cfg : Config)
    (known : List ℕ → Bool) (ship : IsTransport o send) where
  pub check_login_lem :
      (user part nonce own : List ℕ) (s : Peer)
      → s.opened ≡ true
      → s.enc ≡ hyb
      → let k = server_key_filenames cfg (record s { temp_username = user }) in
        HasKeys o k.my_priv_key k.other_pub_key
        → s.password ≡ []
        → s.next_enc ≡ unspec
        → s.my_nonce.storage ≡ nonce
        → NonZero user
        → length user ≤ 16
        → known user ≡ true
        → length nonce ≡ 32
        → length own ≡ 32
        → length part ≡ 32
        → Bytes part
        → (n : ℕ × ℕ) × (raw1 : List ℕ) × (raw2 : List ℕ) × (Server.check_login o cfg be known send
              (answer user part nonce own).buffer
              s
            ≡ (
              ok tt,
              accepted o law be send cfg known ship
                  (record s { other_nonce = filled own; temp_username = user })
                  own
                  part
                  n
                  raw1
                  raw2,
            ))
  unfolding Server.check_login Server.check_user set_temp_username server_key_filenames
  check_login_lem user part nonce own s h en keys bare k m nz short kn len_nonce len_own len_part
        fit =
      let name = user ++ 0 ∷ [] in
      let size_name : length name ≡ length user + 1 = length-append user (0 ∷ []) in
      let l2 = length-append name part in
      let l3 = length-append (name ++ part) nonce in
      let v1 = filled-IsValid name (omega arith) in
      let v2 = extend-IsValid part (filled name) v1 (omega arith) in
      let v3 = extend-IsValid nonce (extend part (filled name)) v2 (omega arith) in
      let b = (answer user part nonce own).buffer in
      let v : IsValid b =
        extend-IsValid own (extend nonce (extend part (filled name))) v3 (omega arith) in
      let e : unread b ≡ user ++ 0 ∷ (part ++ (nonce ++ own)) =
        append_assoc (name ++ part) nonce own
        ∙ append_assoc name part (nonce ++ own)
        ∙ append_assoc user (0 ∷ []) (part ++ (nonce ++ own)) in
      let g1 = text_Gives be user (part ++ (nonce ++ own)) b nz v e in
      let g2 = block_Gives 32 part (nonce ++ own) g1.after g1.valid g1.left (sym len_part) in
      let g3 = block_Gives 32 nonce own g2.after g2.valid g2.left (sym len_nonce) in
      let g4 =
        block_Gives 32 own [] g3.after g3.valid (g3.left ∙ sym (append-nil own)) (sym len_own) in
      let s1 : Peer = record s { other_nonce = filled own } in
      let s2 : Peer = record s { other_nonce = filled own; temp_username = user } in
      let (n, raw1, raw2, accepts) =
        accept_user_lem o law be send cfg known ship own part s2 h en keys bare k refl len_own
          len_part fit in
      (
        n,
        raw1,
        raw2,
        rw (
          g1.gives,
          g2.gives,
          fill_bytes part (omega arith) (omega arith),
          g3.gives,
          g4.gives,
          other_nonce_lem own s len_own,
          le→ltb 16 (length user) short,
          kn,
          check_nonce_lem nonce s2 m,
          accepts,
        ),
      )

module _ (o : OpenSsl) (be : Bool) (send : Send) where
  pub check_response_lem :
      (own key part : List ℕ) (s : Peer)
      → s.my_nonce ≡ filled own
      → s.key ≡ filled part
      → length own ≡ 32
      → length key ≡ 32
      → length part ≡ 32
      → Bytes key
      → Bytes part
      → Client.check_response o be send (acceptance own key).buffer s ≡ (
        ok tt,
        record s {
          status = login_step_2;
          enc = aes256;
          key = shared_key part key;
          id_send = 0;
          id_receive = 0;
          my_nonce = advance 4 (filled own);
          test_data = nonce_value be own;
        },
      )
  unfolding Client.check_response set_session_status set_encryption_key reset_packet_num
  check_response_lem own key part s m f len_own len_key len_part fit_key fit_part =
      let acc = codes "acc" ++ 0 ∷ [] in
      let l2 = length-append acc own in
      let v1 = filled-IsValid acc (omega arith) in
      let v2 = extend-IsValid own (filled acc) v1 (omega arith) in
      let b = (acceptance own key).buffer in
      let v : IsValid b = extend-IsValid key (extend own (filled acc)) v2 (omega arith) in
      let e : unread b ≡ codes "acc" ++ 0 ∷ (own ++ key) = append_assoc acc own key in
      let g1 = text_Gives be (codes "acc") (own ++ key) b (omega arith) v e in
      let g2 = block_Gives 32 own key g1.after g1.valid g1.left (sym len_own) in
      let g3 =
        block_Gives 32 key [] g2.after g2.valid (g2.left ∙ sym (append-nil key)) (sym len_key) in
      rw (
        g1.gives,
        bytes_eq_self (codes "acc"),
        g2.gives,
        check_nonce_lem own s (ap (λ b. b.storage) m),
        g3.gives,
        fill_bytes key (omega arith) (omega arith),
        f,
        xor_buffer_lem be (filled part) (filled key) (filled-IsValid key (omega arith))
            (omega arith) (omega arith) fit_part fit_key,
        m,
        read_lem be w32 (filled own) (filled-IsValid own (omega arith)) (omega arith),
      )
