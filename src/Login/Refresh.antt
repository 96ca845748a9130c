-- ===== src/Login/Refresh.antt =====
-- The exchange of a new key: the server's part, the client's, and the empty packet with which the new
-- key is in force.
use project_secure_chat.Base.{
  ℕ, suc, ◌≡◌, refl, ap, ◌∙◌, Bool, true, false, List, [], ◌∷◌, ◌++◌, ◌==◌, length, arith,
}
use project_secure_chat.Base.Result.{ok}
use project_secure_chat.Buffer.Defs.{ByteBuffer, empty, append_buffer, clear}
use project_secure_chat.Buffer.Append.{IsValid-empty}
use project_secure_chat.Crypto.OpenSsl.{OpenSsl}
use project_secure_chat.Crypto.Aes.{good_key}
use project_secure_chat.Crypto.Keys.{Bytes, zip_xor, length-zip_xor, xor_buffer_lem}
use project_secure_chat.Opcode.Defs.{smsg_refresh_key, cmsg_refresh_key}
use project_secure_chat.Packet.Defs.{Packet}
use project_secure_chat.Timer.{update, passed, set_current}
use project_secure_chat.Peer.State.{
  Peer, Config, authenticated, unspec, aes256, is_authenticated, status_code, set_encryption_key,
  reset_packet_num,
}
use project_secure_chat.Login.Run.{run, Send, SealsAll, packet_of, after_send, seals_other}
use project_secure_chat.Login.Server
use project_secure_chat.Login.Client
use project_secure_chat.Login.Parts.{
  IsRandom, filled, filled-IsValid, append_filled, random_key_lem,
}
use project_secure_chat.Login.Accepting.{shared_key}

-- A session that may exchange keys: logged in, on an open socket, under AES-256.
pub record IsOnline (s : Peer) : Type 0 where
  pub opened : s.opened ≡ true
  pub prepares : s.next_enc ≡ unspec
  pub status : s.status ≡ authenticated
  pub under : s.enc ≡ aes256
  pub good : good_key s.key ≡ true

abbrev pub offer : List ℕ → Packet
offer part = packet_of smsg_refresh_key (filled part)

abbrev pub reply : List ℕ → Packet
reply part = packet_of cmsg_refresh_key (filled part)

abbrev pub go_ahead : Packet
go_ahead = packet_of smsg_refresh_key empty

module _ (o : OpenSsl) (law : IsRandom o) (cfg : Config) (be : Bool) (known : List ℕ → Bool)
    (send : Send) (ship : SealsAll send) where
  pub offer_lem :
      (diff : ℕ) (s : Peer)
      → IsOnline s
      → (diff == 0) ≡ false
      → passed (update diff s.key_timer) ≡ true
      → (s.change_keys == 1) ≡ false
      → s.sent ≡ []
      → (s' : Peer) × (run (Server.generate_new_key o cfg be known send diff) s ≡ ok (tt, s'))
        × (s'.sent ≡ offer (o.random_bytes s.draws 32) ∷ [])
        × (s'.key_tmp ≡ filled (o.random_bytes s.draws 32))
        × (s'.change_keys ≡ 0)
        × (s'.server ≡ s.server)
        × IsOnline s'
  unfolding Server.generate_new_key is_authenticated
  offer_lem diff s on ticks due idle nothing =
      let part = o.random_bytes s.draws 32 in
      let c = law.count s.draws 32 in
      let s1 : Peer = record s {
        key_timer = update diff s.key_timer;
        key_tmp = filled part;
        draws = suc s.draws;
        change_keys = 0;
      } in
      let (n, raw, f) =
        seals_other send ship (offer part) s1 on.opened on.under on.good (omega (arith, c))
          on.prepares refl in
      let s2 : Peer = record s1 {
        id_send = n.0;
        draws = n.1;
        sent = s.sent ++ offer part ∷ [];
        wire = s.wire ++ raw ∷ [];
      } in
      (
        record s2 { key_timer = set_current 0 (update diff s.key_timer) },
        rw (
          ap (λ st. status_code st == 7) on.status,
          ticks,
          due,
          idle,
          random_key_lem o law s.draws s.key_tmp,
          append_filled part empty IsValid-empty (omega arith) (omega arith) (omega arith),
          f,
        ),
        ap (λ l. l ++ offer part ∷ []) nothing,
        refl,
        refl,
        refl,
        record {
          opened = on.opened;
          prepares = on.prepares;
          status = on.status;
          under = on.under;
          good = on.good;
        },
      )

  pub reply_lem :
      (part : List ℕ) (c : Peer)
      → IsOnline c
      → c.sent ≡ []
      → length part ≡ 32
      → Bytes part
      → (c' : Peer) × (Client.handle_refresh_key o be send (offer part) c ≡ (ok tt, c'))
        × (c'.sent ≡ reply (o.random_bytes c.draws 32) ∷ [])
        × (c'.key_tmp ≡ filled (zip_xor (o.random_bytes c.draws 32) part))
        × IsOnline c'
  unfolding Client.handle_refresh_key clear
  reply_lem part c on nothing len fit =
      let mine = o.random_bytes c.draws 32 in
      let len_mine = law.count c.draws 32 in
      let c1 : Peer = record c { draws = suc c.draws } in
      let (n, raw, f) =
        seals_other send ship (reply mine) c1 on.opened on.under on.good (omega (arith, len_mine))
          on.prepares refl in
      let k = zip_xor mine part in
      let len_k : length k ≡ 32 = length-zip_xor mine part (omega arith) ∙ len_mine in
      let same : shared_key mine part ≡ filled k =
        ap (λ n. record (filled k) { wpos = n }) (omega arith) in
      (
        record c1 {
          id_send = n.0;
          draws = n.1;
          sent = c.sent ++ reply mine ∷ [];
          wire = c.wire ++ raw ∷ [];
          key_tmp = filled k;
        },
        rw (
          ap (λ n. n == 0) len,
          ap (λ n. n == 32) len,
          random_key_lem o law c.draws empty,
          append_filled mine empty IsValid-empty (omega arith) (omega arith) (omega arith),
          f,
          xor_buffer_lem be (filled mine) (filled part) (filled-IsValid part (omega arith))
              (omega arith) (omega arith) (law.bytes_fit c.draws 32) fit,
          ap (λ b. append_buffer b empty) same
              ∙ append_filled k empty IsValid-empty (omega arith) (omega arith) (omega arith),
        ),
        ap (λ l. l ++ reply mine ∷ []) nothing,
        refl,
        record {
          opened = on.opened;
          prepares = on.prepares;
          status = on.status;
          under = on.under;
          good = on.good;
        },
      )

  pub grant_lem :
      (part theirs : List ℕ) (s : Peer)
      → IsOnline s
      → s.server ≡ true
      → s.key_tmp ≡ filled part
      → s.change_keys ≡ 0
      → length part ≡ 32
      → length theirs ≡ 32
      → Bytes part
      → Bytes theirs
      → (s' : Peer) × (Server.handle_refresh_key o cfg be known send
            (reply theirs)
            (record s { sent = [] })
          ≡ (ok tt, s'))
        × (s'.sent ≡ go_ahead ∷ [])
        × (s'.key ≡ shared_key part theirs)
        × (s'.enc ≡ aes256)
        × (s'.id_send ≡ 0)
        × (s'.id_receive ≡ 0)
        × (s'.change_keys ≡ 2)
  unfolding Server.handle_refresh_key after_send set_encryption_key reset_packet_num
  grant_lem part theirs s on here mine idle len len_theirs fit fit_theirs =
      let s1 : Peer = record s { sent = []; key_tmp = shared_key part theirs; change_keys = 1 } in
      let (n, raw, e) = ship.delivers go_ahead s1 on.opened on.under on.good (omega arith) in
      let s2 : Peer = record s1 {
        key = shared_key part theirs;
        enc = aes256;
        change_keys = 2;
        draws = n.1;
        id_send = 0;
        id_receive = 0;
        sent = go_ahead ∷ [];
        wire = s.wire ++ raw ∷ [];
      } in
      (
        s2,
        rw (
          ap (λ n. n == 0) idle,
          mine,
          xor_buffer_lem be (filled part) (filled theirs) (filled-IsValid theirs (omega arith))
              (omega arith) (omega arith) fit fit_theirs,
          e,
          here,
        ),
        refl,
        refl,
        refl,
        refl,
        refl,
        refl,
      )

  pub take_lem :
      (k : ByteBuffer) (c : Peer)
      → c.key_tmp ≡ k
      → (c' : Peer) × (Client.handle_refresh_key o be send go_ahead (record c { sent = [] })
          ≡ (ok tt, c'))
        × (c'.key ≡ k)
        × (c'.enc ≡ aes256)
        × (c'.id_send ≡ 0)
        × (c'.id_receive ≡ 0)
  unfolding Client.handle_refresh_key set_encryption_key reset_packet_num
  take_lem k c e = (_, refl, e, refl, refl, refl)
