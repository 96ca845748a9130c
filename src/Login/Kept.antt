-- ===== src/Login/Kept.antt =====
-- What a run of a handler leaves as it was, whether it returns or throws.
use project_secure_chat.Base.{
  ℕ, suc, ◌≡◌, refl, inl, inr, Bool-cases, Bool, true, false, not, ◌&&◌, ◌||◌, ◌==◌, List,
}
use project_secure_chat.Base.Result.{Result, Result-cases, ok, err, ok_injective, err_not}
use project_secure_chat.Buffer.Defs.{ByteBuffer, empty, append_buffer}
use project_secure_chat.Crypto.OpenSsl.{OpenSsl}
use project_secure_chat.Crypto.Keys.{xor_buffer}
use project_secure_chat.Crypto.Random.{generate_random_key}
use project_secure_chat.Opcode.Defs.{smsg_refresh_key}
use project_secure_chat.Packet.Defs.{Packet}
use project_secure_chat.Buffer.Words.{w32}
use project_secure_chat.Buffer.Defs.{read}
use project_secure_chat.Timer.{update, passed}
use project_secure_chat.Peer.State.{
  Peer, Config, Status, none_status, rejected, disconnected, connected, login_step_1, login_step_2,
  login_step_3, authenticated, is_authenticated, set_session_status, set_username,
}
use project_secure_chat.Login.Run.{M, after, lift, Send, packet_of}
use project_secure_chat.Login.Server
use project_secure_chat.Login.Accepting.{minus_one}

module _ {κ} (P : Peer → Type κ) where
  pub after_kept :
      {A B : Type 0}
      → (r : Result A × Peer) (f : A → M B) → P r.1
      → ((a : A) (s : Peer) → P s → P (f a s).1)
      → P (after r f).1
  after_kept (ok a, s) f h k = k a s h
  after_kept (err e, s) f h k = h

  -- A call that may throw and gives back what to go on with.
  pub lift_kept :
      {A B : Type 0}
      → (r : Result A) (s : Peer) (f : A → M B) → P s
      → ((a : A) → P (f a s).1)
      → P (after (r, s) f).1
  lift_kept (ok a) s f h k = k a
  lift_kept (err e) s f h k = h

abbrev pub In : Peer → Type 0
In s = s.status ≡ authenticated

false_not : ¬ (ok false ≡ ok true)
false_not h = absurd (cc (ok_injective false true h))

not_true : (r : Result (Unit {0}) × Peer) → ¬ ((after r (λ t. lift (ok false))).0 ≡ ok true)
not_true (ok t, s) h = false_not h
not_true (err e, s) h = err_not e true h

module _ (o : OpenSsl) (cfg : Config) (be : Bool) (known : List ℕ → Bool) (send : Send)
    (keeps : (p : Packet) (s : Peer) → In s → In (send p s).1) where
  pub refresh_kept :
      (p : Packet) (s : Peer) → In s → In (Server.handle_refresh_key o cfg be known send p s).1
  unfolding Server.handle_refresh_key
  refresh_kept p s h = elim (Bool-cases (s.change_keys == 0)) [
    | inl e ↦ rw e (
        lift_kept In (xor_buffer be s.key_tmp p.buffer) s _ h
          (λ k. keeps (packet_of smsg_refresh_key empty) _ h))
    | inr e ↦ rw e h
  ]

  new_key_kept :
      (diff : ℕ) (s : Peer) → In s → In (Server.generate_new_key o cfg be known send diff s).1
  unfolding Server.generate_new_key
  new_key_kept diff s h =
      let timer = update diff s.key_timer in
      let s1 : Peer = record s { key_timer = timer } in
      elim (Bool-cases (is_authenticated s && not (diff == 0))) [
        | inr e ↦ rw e h
        | inl e ↦ elim (Bool-cases (passed timer && not (s.change_keys == 1))) [
          | inr f ↦ rw (e, f) h
          | inl f ↦
              rw (e, f)
                (lift_kept In (generate_random_key o s.draws 32 s.key_tmp) s1 _ h (λ (done, k).
                  lift_kept In (append_buffer k empty)
                    (record s1 { key_tmp = k; draws = suc s.draws; change_keys = 0 }) _ h
                    (λ b.
                      after_kept In
                        (send (packet_of smsg_refresh_key b)
                          (record s1 { key_tmp = k; draws = suc s.draws; change_keys = 0 }))
                        _ (keeps (packet_of smsg_refresh_key b) _ h) (λ t s2 h2. h2))))
        ]
      ]

  login_timer_kept : (diff : ℕ) (s : Peer) → In s → Server.login_timer diff s ≡ s
  unfolding Server.login_timer
  login_timer_kept diff s h = rw h

  pub timer_kept :
      (diff : ℕ) (s : Peer)
      → In s
      → In (Server.generate_new_key o cfg be known send diff (Server.login_timer diff s)).1
  timer_kept diff s h = rw (login_timer_kept diff s h) (new_key_kept diff s h)

  after_quiet :
      (m : M (Unit {0})) (s : Peer) → ¬ ((Server.quiet o cfg be known send m s).0 ≡ ok true)
  after_quiet m s = not_true (m s)

  -- The login of a session that has logged in does nothing.
  pub login_again :
      (taken : List ℕ → Bool) (p : Packet) (s : Peer)
      → In s
      → Server.handle_login o cfg be known send taken p s ≡ (ok false, s)
  unfolding Server.handle_login
  login_again taken p s h = rw h

  finish_joins :
      (taken : List ℕ → Bool) (b : ByteBuffer) (s : Peer)
      → (Server.finish_login o cfg be known send taken b s).0 ≡ ok true
      → In (Server.finish_login o cfg be known send taken b s).1
  unfolding Server.finish_login set_session_status set_username
  finish_joins taken b s h = elim (Result-cases (read be w32 b)) [
    | inl (e, f) ↦ absurd (err_not e true (rw f at h))
    | inr ((t, rest), f) ↦
        elim (Bool-cases (not (t == minus_one s.test_data) || taken s.temp_username)) [
          | inl g ↦ absurd (false_not (rw (f, g) at h))
          | inr g ↦ rw (f, g) refl
        ]
  ]

  step_joins :
      (st : Status) (taken : List ℕ → Bool) (b : ByteBuffer) (s : Peer)
      → (Server.login_in o cfg be known send st taken b s).0 ≡ ok true
      → In (Server.login_in o cfg be known send st taken b s).1
  step_joins connected taken b s h =
      absurd (after_quiet (Server.start_login o cfg be known send) s h)
  step_joins login_step_1 taken b s h =
      absurd (after_quiet (Server.check_login o cfg be known send b) s h)
  step_joins login_step_2 taken b s h = finish_joins taken b s h
  step_joins none_status taken b s h = absurd (false_not h)
  step_joins rejected taken b s h = absurd (false_not h)
  step_joins disconnected taken b s h = absurd (false_not h)
  step_joins login_step_3 taken b s h = absurd (false_not h)
  step_joins authenticated taken b s h = absurd (false_not h)

  -- Only a session that has logged in joins the default channel.
  pub joins_only :
      (taken : List ℕ → Bool) (p : Packet) (s : Peer)
      → (Server.handle_login o cfg be known send taken p s).0 ≡ ok true
      → In (Server.handle_login o cfg be known send taken p s).1
  unfolding Server.handle_login
  joins_only taken p s h = step_joins s.status taken p.buffer s h
