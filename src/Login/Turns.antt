-- ===== src/Login/Turns.antt =====
-- The turns of the login: what a side's handler makes of the packets that the other side sent.
use project_secure_chat.Base.{
  ℕ, suc, ◌≤◌, ◌≡◌, refl, ap, ◌∙◌, Bool, true, false, List, [], ◌∷◌, length, arith,
}
use project_secure_chat.Base.Result.{ok}
use project_secure_chat.Buffer.Text.{NonZero}
use project_secure_chat.LockQueue.{add, next, empty_queue}
use project_secure_chat.Timer.{new_timer, init_login_interval}
use project_secure_chat.Buffer.Read.{advance}
use project_secure_chat.Crypto.OpenSsl.{OpenSsl}
use project_secure_chat.Crypto.Keys.{Bytes, zip_xor, length-zip_xor}
use project_secure_chat.Wire.Hybrid.{HasKeys}
use project_secure_chat.Opcode.Defs.{smsg_login}
use project_secure_chat.Packet.Defs.{Packet}
use project_secure_chat.Peer.State.{
  Peer, Status, Config, connected, login_step_1, login_step_2, authenticated, unspec, hyb, aes256,
  new_client, new_server, get_packet_to_send, server_key_filenames, client_key_filenames,
}
use project_secure_chat.Login.Run.{
  M, after, finished, run, flush, handle_all, lift, Send, IsTransport, packet_of, after_send,
}
use project_secure_chat.Login.Server
use project_secure_chat.Login.Client
use project_secure_chat.Login.Parts.{IsRandom, filled}
use project_secure_chat.Login.Greeting.{answer, start_login_lem, answer_nonce_lem}
use project_secure_chat.Login.Accepting.{
  acceptance, test_packet, nonce_value, minus_one, shared_key,
}
use project_secure_chat.Login.Checking.{check_login_lem, check_response_lem}
use project_secure_chat.Login.Closing.{check_test_lem, finish_login_lem, confirmation}

-- A client that has just connected, after SetUsername and UpdateKeyFilenames.
abbrev pub client_of : Config → List ℕ → ℕ → Peer
client_of cfg name draws =
    client_key_filenames cfg
      (record new_client { opened = true; status = connected; username = name; draws = draws })

abbrev pub greeting : List ℕ → Packet
greeting nonce = packet_of smsg_login (filled nonce)

-- A session that is at this step, on an open socket, with no change of the encryption prepared
-- and without a password.
pub record IsAt (st : Status) (s : Peer) : Type 0 where
  pub opened : s.opened ≡ true
  pub prepares : s.next_enc ≡ unspec
  pub status : s.status ≡ st
  pub bare : s.password ≡ []

pub one_lem :
    {A : Type 0}
    → (handle : Packet → M A) (p : Packet) (s s' : Peer) (a : A) → handle p s ≡ (ok a, s')
    → run (handle_all handle (p ∷ [])) s ≡ ok (a ∷ [], s')
one_lem handle p s s' a e = rw e

pub two_lem :
    {A : Type 0}
    → (handle : Packet → M A) (p q : Packet) (s s1 s2 : Peer) (a b : A) → handle p s ≡ (ok a, s1)
    → handle q s1 ≡ (ok b, s2)
    → run (handle_all handle (p ∷ q ∷ [])) s ≡ ok (a ∷ b ∷ [], s2)
two_lem handle p q s s1 s2 a b e f = rw (e, f)

module _ (o : OpenSsl) (law : IsRandom o) (cfg : Config) (be : Bool) (known taken : List ℕ → Bool)
    (send : Send) (ship : IsTransport o send) where
  pub greet_lem :
      (hello : Packet) (a b : ℕ)
      → (s1 : Peer) × (s2 : Peer) × (run
            (Server.handle_login o cfg be known send taken hello)
            (new_server a b)
          ≡ ok (false, s1))
        × (run (flush send) s1 ≡ ok (tt, s2))
        × (s2.sent ≡ greeting (o.random_bytes 0 32) ∷ [])
        × (s2.my_nonce.storage ≡ o.random_bytes 0 32)
        × (s2.enc ≡ hyb)
        × IsAt login_step_1 s2
  unfolding new_client new_server Server.handle_login flush get_packet_to_send add next after_send
  greet_lem hello a b =
      let nonce = o.random_bytes 0 32 in
      let e1 = start_login_lem o law be send cfg known (new_server a b) refl refl in
      let s1 : Peer = record (new_server a b) {
        status = login_step_1;
        next_enc = hyb;
        my_nonce = filled nonce;
        draws = 1;
        send_queue = add (greeting nonce) empty_queue;
        keep_alive_timer = init_login_interval cfg.login_timeout new_timer;
      } in
      let (n, raw, e2) =
        ship.delivers (greeting nonce) (record s1 { send_queue = empty_queue }) refl tt
          (omega (arith, law.count 0 32)) in
      (
        s1,
        _,
        rw e1,
        ap finished e2,
        refl,
        refl,
        refl,
        record { opened = refl; prepares = refl; status = refl; bare = refl },
      )

  pub answer_lem :
      (ccfg : Config) (nonce name : List ℕ) (draws : ℕ)
      → (let c = client_of ccfg name draws in HasKeys o c.my_priv_key c.other_pub_key)
      → length name ≤ 16
      → length nonce ≡ 32
      → (c : Peer) × (run
            (handle_all (Client.handle_login o be send) (greeting nonce ∷ []))
            (client_of ccfg name draws)
          ≡ ok (tt ∷ [], c))
        × (c.sent
            ≡ answer name (o.random_bytes draws 32) nonce (o.random_bytes (suc draws) 32) ∷ [])
        × (c.my_nonce ≡ filled (o.random_bytes (suc draws) 32))
        × (c.key ≡ filled (o.random_bytes draws 32))
        × IsAt login_step_1 c
  unfolding new_client client_key_filenames Client.handle_login
  answer_lem ccfg nonce name draws keys short len =
      let c0 = client_of ccfg name draws in
      let (n, raw, e) =
        answer_nonce_lem o law be send nonce c0 ship refl keys refl refl short len in
      (
        _,
        one_lem (Client.handle_login o be send) (greeting nonce) c0 _ tt e,
        refl,
        refl,
        refl,
        record { opened = refl; prepares = refl; status = refl; bare = refl },
      )

  pub accept_lem :
      (name part nonce own : List ℕ) (s : Peer)
      → IsAt login_step_1 s
      → s.enc ≡ hyb
      → (let k = server_key_filenames cfg (record s { temp_username = name }) in
          HasKeys o k.my_priv_key k.other_pub_key)
      → s.my_nonce.storage ≡ nonce
      → NonZero name
      → length name ≤ 16
      → known name ≡ true
      → length nonce ≡ 32
      → length own ≡ 32
      → length part ≡ 32
      → Bytes part
      → (key : List ℕ) × (s' : Peer) × (run
            (handle_all
              (Server.handle_login o cfg be known send taken)
              (answer name part nonce own ∷ []))
            (record s { sent = [] })
          ≡ ok (false ∷ [], s'))
        × (key ≡ o.random_bytes s.draws 32)
        × (s'.sent ≡ acceptance own key ∷ test_packet be (minus_one (nonce_value be own)) ∷ [])
        × (s'.key ≡ shared_key key part)
        × (s'.enc ≡ aes256)
        × (s'.test_data ≡ minus_one (nonce_value be own))
        × (s'.temp_username ≡ name)
        × IsAt login_step_2 s'
  unfolding Server.handle_login server_key_filenames
  accept_lem name part nonce own s at en keys m nz short kn l1 l2 l3 fit =
      let s0 : Peer = record s { sent = [] } in
      let (n, raw1, raw2, e) =
        check_login_lem o law be send cfg known ship name part nonce own s0 at.opened en keys
          at.bare at.prepares m nz short kn l1 l2 l3 fit in
      (
        o.random_bytes s.draws 32,
        _,
        one_lem (Server.handle_login o cfg be known send taken) (answer name part nonce own) s0 _
            false
            (ap
                (λ st.
                  Server.login_in o cfg be known send st taken (answer name part nonce own).buffer
                    s0)
                at.status
              ∙ ap (λ r. after r (λ _. lift (ok false))) e),
        refl,
        refl,
        refl,
        refl,
        refl,
        refl,
        record { opened = at.opened; prepares = at.prepares; status = refl; bare = at.bare },
      )

  pub confirm_lem :
      (own key part : List ℕ) (c : Peer)
      → IsAt login_step_1 c
      → c.my_nonce ≡ filled own
      → c.key ≡ filled part
      → length own ≡ 32
      → length key ≡ 32
      → length part ≡ 32
      → Bytes key
      → Bytes part
      → (c' : Peer) × (run
            (handle_all
              (Client.handle_login o be send)
              (acceptance own key ∷ test_packet be (minus_one (nonce_value be own)) ∷ []))
            (record c { sent = [] })
          ≡ ok (tt ∷ tt ∷ [], c'))
        × (c'.sent ≡ confirmation be (minus_one (minus_one (nonce_value be own))) ∷ [])
        × (c'.key ≡ shared_key part key)
        × (c'.enc ≡ aes256)
        × IsAt authenticated c'
  unfolding Client.handle_login
  confirm_lem own key part c at m k l1 l2 l3 fit1 fit2 =
      let c0 : Peer = record c { sent = [] } in
      let t = nonce_value be own in
      let p = acceptance own key in
      let q = test_packet be (minus_one t) in
      let e = check_response_lem o be send own key part c0 m k l1 l2 l3 fit1 fit2 in
      let c2 : Peer = record c0 {
        status = login_step_2;
        enc = aes256;
        key = shared_key part key;
        id_send = 0;
        id_receive = 0;
        my_nonce = advance 4 (filled own);
        test_data = t;
      } in
      let size_key : length (zip_xor part key) ≡ 32 = length-zip_xor part key (omega arith) ∙ l3 in
      let (n, raw, f) =
        check_test_lem o be send t c2 ship at.opened refl (rw size_key refl) at.prepares refl in
      (
        _,
        two_lem (Client.handle_login o be send) p q c0 c2 _ tt tt
            (ap (λ st. Client.login_in o be send st p.buffer c0) at.status ∙ e) f,
        refl,
        refl,
        refl,
        record { opened = at.opened; prepares = at.prepares; status = refl; bare = at.bare },
      )

  pub admit_lem :
      (name : List ℕ) (t : ℕ) (s : Peer)
      → IsAt login_step_2 s
      → s.temp_username ≡ name
      → s.test_data ≡ t
      → taken name ≡ false
      → length name ≤ 16
      → (s' : Peer) × (run
            (handle_all
              (Server.handle_login o cfg be known send taken)
              (confirmation be (minus_one t) ∷ []))
            (record s { sent = [] })
          ≡ ok (true ∷ [], s'))
        × (s'.key ≡ s.key)
        × (s'.enc ≡ s.enc)
        × (s'.username ≡ name)
        × (s'.status ≡ authenticated)
  unfolding Server.handle_login
  admit_lem name t s at u e free short =
      let s0 : Peer = record s { sent = [] } in
      let p = confirmation be (minus_one t) in
      let f =
        finish_login_lem o be send cfg known taken t s0 e (ap taken u ∙ free)
          (omega (arith, ap length u)) in
      (
        _,
        one_lem (Server.handle_login o cfg be known send taken) p s0 _ true
            (ap (λ st. Server.login_in o cfg be known send st taken p.buffer s0) at.status ∙ f),
        refl,
        refl,
        u,
        refl,
      )
