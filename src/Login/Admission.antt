-- ===== src/Login/Admission.antt =====
-- Who is let in: no step of the server's login but the last one makes a session authenticated.
use project_secure_chat.Base.{
  ℕ, suc, ◌≡◌, refl, ap, ◌∙◌, inl, inr, Bool-cases, Bool, true, false, List, ◌==◌, ==_iff,
  if◌then◌else◌, codes, ltb, length, arith,
}
use project_secure_chat.Base.Result.{Result, Result-cases, ok, err, ◌>>=◌}
use project_secure_chat.Buffer.Words.{w32}
use project_secure_chat.Buffer.Defs.{
  ByteBuffer, empty, append_text, append_buffer, append_bytes, append_value, read, read_text,
  read_bytes,
}
use project_secure_chat.Crypto.OpenSsl.{OpenSsl}
use project_secure_chat.Crypto.Random.{generate_random_key}
use project_secure_chat.Crypto.Keys.{xor_buffer}
use project_secure_chat.Opcode.Defs.{smsg_login}
use project_secure_chat.Packet.Defs.{Packet}
use project_secure_chat.Peer.State.{
  Peer, Config, Status, none_status, rejected, disconnected, connected, login_step_1, login_step_2,
  login_step_3, authenticated, status_code, hyb, aes256, nonce_size, close, set_username,
  set_temp_username, set_encryption_key, set_next_encryption, set_session_status, generate_nonce,
  set_other_nonce, reset_packet_num, queue_packet, server_key_filenames,
}
use project_secure_chat.Login.Run.{M, after, lift, Send, packet_of}
use project_secure_chat.Login.Server
use project_secure_chat.Login.Accepting.{minus_one}

-- A session that has not logged in.
abbrev pub Outside : Peer → Type 0
Outside s = (status_code s.status == 7) ≡ false

after_lift :
    {A B : Type 0}
    → (r : Result A) (s : Peer) (f : A → M B) → Outside s
    → ((a : A) → Outside (f a s).1)
    → Outside (after (r, s) f).1
after_lift (ok a) s f h k = k a
after_lift (err e) s f h k = h

after_send_out :
    {A B : Type 0}
    → (r : Result A × Peer) (f : A → M B) → Outside r.1
    → ((a : A) (s : Peer) → Outside s → Outside (f a s).1)
    → Outside (after r f).1
after_send_out (ok a, s) f h k = k a s h
after_send_out (err e, s) f h k = h

-- A call that gives the session back, if it returns.
abbrev Keeps : Result Peer → Type 0
Keeps (ok s) = Outside s
Keeps (err e) = Unit {0}

bind_out :
    {A : Type 0}
    → (r : Result A) (f : A → Peer) → ((a : A) → Outside (f a))
    → Keeps (r >>= λ a. ok (f a))
bind_out (ok a) f k = k a
bind_out (err e) f k = tt

after-Keeps :
    {B : Type 0}
    → (r : Result Peer) (s : Peer) (f : Peer → M B) → Outside s
    → Keeps r
    → ((s' : Peer) → Outside s' → Outside (f s' s).1)
    → Outside (after (r, s) f).1
after-Keeps (ok s') s f h k g = g s' k
after-Keeps (err e) s f h k g = h

nonce_out : (o : OpenSsl) (s : Peer) → Outside s → Keeps (generate_nonce o s)
unfolding generate_nonce
nonce_out o s h = bind_out _ (λ n. record s { my_nonce = n; draws = suc s.draws }) (λ n. h)

other_nonce_out : (nonce : List ℕ) (s : Peer) → Outside s → Keeps (set_other_nonce nonce s)
unfolding set_other_nonce
other_nonce_out nonce s h = bind_out _ (λ n. record s { other_nonce = n }) (λ n. h)

queue_out : (p : Packet) (s : Peer) → Outside s → Outside (queue_packet p s)
unfolding queue_packet close
queue_out p s h = elim (Bool-cases s.opened) [
  | inr e ↦ rw e h
  | inl e ↦ elim (Bool-cases s.has_this) [ inl f ↦ rw (e, f) h | inr f ↦ rw (e, f) h ]
]

module _ (o : OpenSsl) (cfg : Config) (be : Bool) (known : List ℕ → Bool) (send : Send)
    (keeps : (p : Packet) (s : Peer) → Outside s → Outside (send p s).1) where
  start_login_out : (s : Peer) → Outside (Server.start_login o cfg be known send s).1
  unfolding Server.start_login set_session_status set_next_encryption
  start_login_out s =
      let s0 = set_next_encryption hyb (set_session_status login_step_1 s) in
      after-Keeps (generate_nonce o s0) s0 _ refl (nonce_out o s0 refl) (λ s1 h.
        after_lift (append_buffer s1.my_nonce empty) s1 _ h
          (λ b. queue_out (packet_of smsg_login b) s1 h))

  prove_key_out :
      (key : ByteBuffer) (s : Peer)
      → Outside s
      → Outside (Server.prove_key o cfg be known send key s).1
  unfolding Server.prove_key set_encryption_key reset_packet_num
  prove_key_out key s h = after_lift (xor_buffer be s.key key) s _ h (λ k.
      after_lift (read be w32 s.other_nonce) (reset_packet_num (set_encryption_key k aes256 s)) _ h
        (λ (t, nonce).
          after_lift (append_value be w32 (minus_one t) empty) _ _ h
            (λ b. keeps (packet_of smsg_login b) _ h)))

  accept_user_out :
      (key : ByteBuffer) (s : Peer) → Outside (Server.accept_user o cfg be known send key s).1
  unfolding Server.accept_user set_session_status server_key_filenames
  accept_user_out key s =
      let s0 = server_key_filenames cfg (set_session_status login_step_2 s) in
      after_lift (append_text (codes "acc") empty) s0 _ refl (λ b1.
        after_lift (append_buffer s.other_nonce b1) s0 _ refl (λ b2.
          after_lift (generate_random_key o s.draws 32 s.key) s0 _ refl (λ (done, k).
            after_lift (append_buffer k b2) _ _ refl (λ b3.
              after_send_out (send (packet_of smsg_login b3) _) _
                (keeps (packet_of smsg_login b3) _ refl) (λ u s1 h. prove_key_out key s1 h)))))

  reject_user_out : (s : Peer) → Outside (Server.reject_user o cfg be known send s).1
  unfolding Server.reject_user set_session_status close
  reject_user_out s =
      let s0 = set_session_status rejected s in
      after_lift (append_text (codes "rej") empty) s0 _ refl (λ b.
        after_send_out (send (packet_of smsg_login b) s0) _ (keeps (packet_of smsg_login b) s0 refl)
          (λ u s1 h. h))

  check_user_out :
      (user nonce : List ℕ) (s : Peer)
      → Outside s
      → Outside (Server.check_user o cfg be known send user nonce s).1
  unfolding Server.check_user set_temp_username
  check_user_out user nonce s h = elim (Bool-cases (ltb 16 (length user))) [
    | inl e ↦ rw e h
    | inr e ↦ elim (Bool-cases (known user)) [ inl f ↦ rw (e, f) h | inr f ↦ rw (e, f) h ]
  ]

  decided_out :
      (valid : Bool) (key : ByteBuffer) (s : Peer)
      → Outside s
      → Outside
          ((if valid
              then Server.accept_user o cfg be known send key
              else Server.reject_user o cfg be known send)
            s).1
  decided_out true key s h = accept_user_out key s
  decided_out false key s h = reject_user_out s

  check_login_out :
      (packet : ByteBuffer) (s : Peer)
      → Outside s
      → Outside (Server.check_login o cfg be known send packet s).1
  unfolding Server.check_login
  check_login_out packet s h = after_lift (read_text be packet) s _ h (λ (user, p1).
      after_lift (read_bytes 32 p1) s _ h (λ (tmp, p2).
        after_lift (append_bytes tmp empty) s _ h (λ key.
          after_lift (read_bytes nonce_size p2) s _ h (λ (rec_nonce, p3).
            after_lift (read_bytes nonce_size p3) s _ h (λ (nonce, p4).
              after-Keeps (set_other_nonce nonce s) s _ h (other_nonce_out nonce s h) (λ s1 h1.
                after_send_out (Server.check_user o cfg be known send user rec_nonce s1) _
                  (check_user_out user rec_nonce s1 h1)
                  (λ valid s2 h2. decided_out valid key s2 h2)))))))

-- What the last step wants to see.
abbrev pub Proven : Bool → (List ℕ → Bool) → ByteBuffer → Peer → Type 0
Proven be taken packet s =
    (taken s.temp_username ≡ false)
    × (rest : ByteBuffer) × (read be w32 packet ≡ ok (minus_one s.test_data, rest))

Outside-not : (s : Peer) → Outside s → ¬ (s.status ≡ authenticated)
Outside-not s h e = let f = ap (λ st. status_code st == 7) e in cc

rejected_not : ¬ (rejected ≡ authenticated)
rejected_not e = let f = ap status_code e in omega arith

module _ (o : OpenSsl) (cfg : Config) (be : Bool) (known taken : List ℕ → Bool) (send : Send) where
  finish_login_only :
      (packet : ByteBuffer) (s : Peer)
      → Outside s
      → (Server.finish_login o cfg be known send taken packet s).1.status ≡ authenticated
      → Proven be taken packet s
  unfolding Server.finish_login set_session_status close set_username
  finish_login_only packet s out h = elim (Result-cases (read be w32 packet)) [
    | inl (e, f) ↦ absurd (Outside-not s out (rw f at h))
    | inr ((t, rest), f) ↦ elim (Bool-cases (t == minus_one s.test_data)) [
      | inr g ↦ absurd (rejected_not (rw (f, g) at h))
      | inl g ↦ elim (Bool-cases (taken s.temp_username)) [
        | inl k ↦ absurd (rejected_not (rw (f, g, k) at h))
        | inr k ↦ (k, rest, f ∙ ap (λ n. ok (n, rest)) ((==_iff t (minus_one s.test_data)).0 g))
      ]
    ]
  ]

  quiet-Outside :
      (m : M (Unit {0})) (s : Peer)
      → Outside (m s).1
      → ¬ ((Server.quiet o cfg be known send m s).1.status ≡ authenticated)
  quiet-Outside m s h =
      Outside-not (Server.quiet o cfg be known send m s).1
        (after_send_out (m s) (λ u. lift (ok false)) h (λ u s' k. k))

  step_only :
      (st : Status) (b : ByteBuffer) (s : Peer)
      → ((p' : Packet) (s' : Peer) → Outside s' → Outside (send p' s').1)
      → s.status ≡ st
      → Outside s
      → (Server.login_in o cfg be known send st taken b s).1.status ≡ authenticated
      → (s.status ≡ login_step_2) × Proven be taken b s
  step_only connected b s keeps e out h = absurd (
      quiet-Outside (Server.start_login o cfg be known send) s
        (start_login_out o cfg be known send keeps s) h)
  step_only login_step_1 b s keeps e out h = absurd (
      quiet-Outside (Server.check_login o cfg be known send b) s
        (check_login_out o cfg be known send keeps b s out) h)
  step_only login_step_2 b s keeps e out h = (e, finish_login_only b s out h)
  step_only none_status b s keeps e out h = absurd (Outside-not s out h)
  step_only rejected b s keeps e out h = absurd (Outside-not s out h)
  step_only disconnected b s keeps e out h = absurd (Outside-not s out h)
  step_only login_step_3 b s keeps e out h = absurd (Outside-not s out h)
  step_only authenticated b s keeps e out h = absurd (Outside-not s out h)

  -- A session that is not authenticated and ends a step of the login as such was at the last step, no
  -- session was found under its name, and the packet held the expected value less one; this for a
  -- SendPacketToSocket that makes no session authenticated.
  pub authenticated_only :
      (p : Packet) (s : Peer)
      → ((p' : Packet) (s' : Peer) → Outside s' → Outside (send p' s').1)
      → Outside s
      → (Server.handle_login o cfg be known send taken p s).1.status ≡ authenticated
      → (s.status ≡ login_step_2) × Proven be taken p.buffer s
  unfolding Server.handle_login
  authenticated_only p s keeps out h = step_only s.status p.buffer s keeps refl out h
