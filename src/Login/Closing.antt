-- ===== src/Login/Closing.antt =====
-- The last two steps of the login: the test value comes back, and the server accepts it.
use project_secure_chat.Crypto.Aes.{good_key}
use project_secure_chat.Login.Run.{ready_under}
use project_secure_chat.Peer.State.{aes256}
use project_secure_chat.Base.{
  ℕ, ◌^◌, ◌<◌, ◌≤◌, ◌≡◌, refl, sym, ap, Bool, true, false, List, [], ◌∷◌, ◌++◌, ==_iff, length,
  le→ltb, arith,
}
use mathlib.Core.List.{append-nil}
use project_secure_chat.Base.Result.{ok}
use project_secure_chat.Buffer.Words.{w32, encode, length-encode}
use project_secure_chat.Buffer.Defs.{empty, read}
use project_secure_chat.Buffer.Append.{IsValid-empty, append_value_lem}
use project_secure_chat.Buffer.Text.{Gives}
use project_secure_chat.Buffer.Fields.{value_Gives}
use project_secure_chat.Crypto.OpenSsl.{OpenSsl}
use project_secure_chat.Opcode.Defs.{cmsg_login}
use project_secure_chat.Packet.Defs.{Packet}
use project_secure_chat.Peer.State.{
  Peer, Config, unspec, authenticated, set_session_status, set_username,
}
use project_secure_chat.Login.Run.{Send, packet_of, IsTransport, delivers_quiet}
use project_secure_chat.Login.Server
use project_secure_chat.Login.Client
use project_secure_chat.Login.Parts.{filled, filled-IsValid}
use project_secure_chat.Login.Accepting.{minus_one, test_packet}

-- The client's last packet.
abbrev pub confirmation : Bool → ℕ → Packet
confirmation be t = packet_of cmsg_login (filled (encode be w32 t))

value_read : (be : Bool) (t : ℕ) → t < 2 ^ 32 → Gives (read be w32) (filled (encode be w32 t)) t []
value_read be t h =
    value_Gives be w32 t [] (filled (encode be w32 t)) h
      (filled-IsValid (encode be w32 t) (omega (arith, length-encode be w32 t)))
      (sym (append-nil (encode be w32 t)))

module _ (o : OpenSsl) (be : Bool) (send : Send) where
  pub check_test_lem :
      (t : ℕ) (s : Peer)
      → IsTransport o send
      → s.opened ≡ true
      → s.enc ≡ aes256
      → good_key s.key ≡ true
      → s.next_enc ≡ unspec
      → s.test_data ≡ t
      → (n : ℕ × ℕ) × (raw : List ℕ) × (Client.check_test o be send
            (test_packet be (minus_one t)).buffer
            s
          ≡ (
            ok tt,
            record s {
              status = authenticated;
              id_send = n.0;
              draws = n.1;
              sent = s.sent ++ confirmation be (minus_one (minus_one t)) ∷ [];
              wire = s.wire ++ raw ∷ [];
            },
          ))
  unfolding Client.check_test set_session_status
  check_test_lem t s ship h en good k e =
      let g = value_read be (minus_one t) (omega arith) in
      let reply = confirmation be (minus_one (minus_one t)) in
      let (n, raw, sends) =
        delivers_quiet o send ship reply s h (ready_under o aes256 s en good)
          (omega (arith, length-encode be w32 (minus_one (minus_one t)))) k refl in
      (
        n,
        raw,
        rw (
          g.gives,
          (==_iff (minus_one t) (minus_one s.test_data)).1 (ap minus_one (sym e)),
          append_value_lem be w32 (minus_one (minus_one t)) empty IsValid-empty (omega arith),
          sends,
        ),
      )

  pub finish_login_lem :
      (cfg : Config) (known taken : List ℕ → Bool) (t : ℕ) (s : Peer)
      → s.test_data ≡ t
      → taken s.temp_username ≡ false
      → length s.temp_username ≤ 16
      → Server.finish_login o cfg be known send taken (confirmation be (minus_one t)).buffer s
        ≡ (ok true, record s { status = authenticated; username = s.temp_username })
  unfolding Server.finish_login set_session_status set_username
  finish_login_lem cfg known taken t s e free short =
      let g = value_read be (minus_one t) (omega arith) in
      rw (
        g.gives,
        (==_iff (minus_one t) (minus_one s.test_data)).1 (ap minus_one (sym e)),
        free,
        le→ltb 16 (length s.temp_username) short,
      )
