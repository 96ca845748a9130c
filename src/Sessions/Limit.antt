-- ===== src/Sessions/Limit.antt =====
-- How many sessions are active: never more than the limit, and no fewer while one waits.
use project_secure_chat.Base.{
  ℕ, suc, ◌+◌, ◌-◌, ◌^◌, ◌<◌, ◌≤◌, ◌≡◌, refl, ap, ◌⊎◌, inl, inr, Bool-cases, Option-cases, true,
  false, not, ◌&&◌, Option, none, some, List, [], ◌∷◌, ◌++◌, ltb, leb, ◌==◌, ==_iff, leb→lt, ltb→lt,
  ltb→le, length, length-append, arith,
}
use mathlib.Core.Path.{subst}
use project_secure_chat.Sessions.Manager.{
  Manager, in_queue_set, login_handled, note, active_session_count, contains, insert_session,
  erase_session, add_queued_session, add_session_now, split_at, accept_first, remove_waiting,
  remove_queued_session, remove_ended,
}

length-insert_session :
    (id p : ℕ) (ss : List (ℕ × ℕ))
    → contains id ss ≡ false
    → length (insert_session id p ss) ≡ length ss + 1
unfolding insert_session
length-insert_session id p ss h = rw h (length-append ss ((id, p) ∷ []))

length-erase_session :
    (id : ℕ) (ss : List (ℕ × ℕ))
    → contains id ss ≡ true
    → suc (length (erase_session id ss)) ≡ length ss
unfolding contains erase_session
length-erase_session id [] h = cc
length-erase_session id ((n, p) ∷ rest) h = elim (Bool-cases (n == id)) [
  | inl e ↦ rw e
  | inr e ↦ rw e (ap suc (length-erase_session id rest (rw e at h)))
]

-- The sizes of the two lists and the limit.
pub record Sound (limit n w : ℕ) : Type 0 where
  pub inside : w ≤ n
  pub within : 0 < limit → n ≤ limit + w
  pub full : 0 < w → (0 < limit) × (n ≡ limit + w)

abbrev pub IsSound : Manager → Type 0
IsSound m = Sound m.active_limit (length m.sessions) (length m.wait_queue)

test_yes : (l c : ℕ) → (not (l == 0) && leb l c) ≡ true → (0 < l) × (l ≤ c)
test_yes l c h = (ground arith, ground arith)

test_no : (l c : ℕ) → (not (l == 0) && leb l c) ≡ false → (l ≡ 0) ⊎ (c < l)
test_no l c h = elim (Bool-cases (l == 0)) [
  | inl e ↦ inl ((==_iff l 0).0 e)
  | inr e ↦ inr (leb→lt l c (rw e at h))
]

join_waiting : (l n w : ℕ) → Sound l n w → (0 < l) × (l ≤ n - w) → Sound l (n + 1) (w + 1)
join_waiting l n w s (h, k) = record {
  inside = omega (arith, s.inside);
  within = λ g. omega (arith, s.inside, s.within g);
  full = λ g. (h, omega (arith, s.inside, s.within h));
}

join_active : (l n w : ℕ) → Sound l n w → (l ≡ 0) ⊎ (n - w < l) → Sound l (n + 1) w
join_active l n w s (inl h) = record {
  inside = omega (arith, s.inside);
  within = λ g. absurd (omega arith);
  full = λ g. let (k, same) = s.full g in absurd (omega arith);
}
join_active l n w s (inr h) = record {
  inside = omega (arith, s.inside);
  within = λ g. omega (arith, s.inside, s.within g);
  full = λ g. let (k, same) = s.full g in absurd (omega arith);
}

pub count_lem :
    (m : Manager)
    → IsSound m
    → length m.sessions < 2 ^ 32
    → active_session_count m ≡ length m.sessions - length m.wait_queue
unfolding active_session_count
count_lem m s h = omega (arith, s.inside)

pub add-IsSound :
    (id p : ℕ) (m : Manager)
    → IsSound m
    → length m.sessions < 2 ^ 32
    → contains id m.sessions ≡ false
    → IsSound (add_session_now id p m)
unfolding add_session_now add_queued_session note
add-IsSound id p m s h fresh =
    let count = count_lem m s h in
    let longer = length-insert_session id p m.sessions fresh in
    let one_more = length-append m.wait_queue (p ∷ []) in
    elim (Bool-cases (not (m.active_limit == 0) && leb m.active_limit (active_session_count m))) [
      | inl e ↦ rw e (
          rw (longer, one_more)
            (join_waiting m.active_limit _ _ s (
              subst (λ c. (0 < m.active_limit) × (m.active_limit ≤ c)) count
                (test_yes m.active_limit (active_session_count m) e))))
      | inr e ↦ rw e (
          rw longer (
            join_active m.active_limit _ _ s (
              subst (λ c. (m.active_limit ≡ 0) ⊎ (c < m.active_limit)) count
                (test_no m.active_limit (active_session_count m) e))))
    ]

abbrev span : Option (List ℕ × List ℕ) → ℕ
span none = 0
span (some (before, behind)) = suc (length (before ++ behind))

split-length :
    (p : ℕ) (qs before behind : List ℕ)
    → split_at p qs ≡ some (before, behind)
    → length qs ≡ suc (length (before ++ behind))
unfolding split_at
split-length p [] before behind e = cc
split-length p (q ∷ qs) before behind e = elim (Bool-cases (q == p)) [
  | inl f ↦ ap span (rw f at e)
  | inr f ↦ elim (Option-cases (split_at p qs)) [
    | inl g ↦
        let wrong : 0 ≡ suc (length (before ++ behind)) = ap span (rw (f, g) at e) in
        absurd (omega arith)
    | inr ((a, b), g) ↦
        let same : suc (suc (length (a ++ b))) ≡ suc (length (before ++ behind)) =
          ap span (rw (f, g) at e) in
        omega (arith, same, split-length p qs a b g)
  ]
]

-- The first one leaves the queue where there is room, and nobody else does.
accept_lem :
    (k : ℕ) (qs : List ℕ) (pos : ℕ) (rest : List ℕ) (m : Manager)
    → m.wait_queue ≡ qs
    → ((accept_first k qs pos rest m).sessions ≡ m.sessions)
      × ((accept_first k qs pos rest m).active_limit ≡ m.active_limit)
      × (((length (accept_first k qs pos rest m).wait_queue ≡ length qs)
            × ((length qs ≡ 0) ⊎ ((0 < m.active_limit) × (m.active_limit ≤ k))))
          ⊎ ((suc (length (accept_first k qs pos rest m).wait_queue) ≡ length qs)
              × ((m.active_limit ≡ 0) ⊎ (k < m.active_limit))))
accept_lem k [] pos rest m h = (refl, refl, inl (ap length h, inl refl))
accept_lem k (q ∷ qs) pos rest m h = elim (Bool-cases (m.active_limit == 0)) [
  | inl e ↦ rw e (refl, refl, inr (refl, inl ((==_iff m.active_limit 0).0 e)))
  | inr e ↦ elim (Bool-cases (ltb k m.active_limit)) [
    | inl f ↦ rw (e, f) (refl, refl, inr (refl, inr (ltb→lt k m.active_limit f)))
    | inr f ↦
        rw (e, f) (refl, refl, inl (ap length h, inr (ground arith, ltb→le k m.active_limit f)))
  ]
]

-- What the acceptance makes of a queue of this length, for a limit and a count of sessions.
abbrev Accepts : ℕ → ℕ → ℕ → ℕ → Type 0
Accepts l k w w' =
    ((w' ≡ w) × ((w ≡ 0) ⊎ ((0 < l) × (l ≤ k)))) ⊎ ((suc w' ≡ w) × ((l ≡ 0) ⊎ (k < l)))

leave_active :
    (l n n' w w' : ℕ) → Sound l n w → suc n' ≡ n → Accepts l (n - w - 1) w w' → Sound l n' w'
leave_active l n n' w w' s one (inl (same, inl none_waits)) = record {
  inside = omega arith;
  within = λ g. omega (arith, s.within g);
  full = λ g. absurd (omega arith);
}
leave_active l n n' w w' s one (inl (same, inr (h, k))) =
    absurd (omega (arith, s.inside, s.within h))
leave_active l n n' w w' s one (inr (less, inl h)) =
    absurd (omega (arith, (s.full (omega arith)).0))
leave_active l n n' w w' s one (inr (less, inr h)) =
    let (k, same) = s.full (omega arith) in
    record { inside = omega arith; within = λ g. omega arith; full = λ g. (k, omega arith) }

leave_waiting :
    (l n n' w v w' : ℕ)
    → Sound l n w
    → suc n' ≡ n
    → w ≡ suc v
    → Accepts l (n - w) v w'
    → Sound l n' w'
leave_waiting l n n' w v w' s one some_wait (inl (same, reason)) =
    let (k, eq) = s.full (omega arith) in
    record { inside = omega arith; within = λ g. omega arith; full = λ g. (k, omega arith) }
leave_waiting l n n' w v w' s one some_wait (inr (less, inl h)) =
    absurd (omega (arith, (s.full (omega arith)).0))
leave_waiting l n n' w v w' s one some_wait (inr (less, inr h)) =
    absurd (omega (arith, (s.full (omega arith)).1))

erased-IsSound :
    (id : ℕ) (m after : Manager)
    → after.sessions ≡ m.sessions
    → after.active_limit ≡ m.active_limit
    → Sound m.active_limit (length (erase_session id m.sessions)) (length after.wait_queue)
    → IsSound (record after { sessions = erase_session id after.sessions })
erased-IsSound id m after e f s = rw (e, f) s

removed-IsSound :
    (id p : ℕ) (m : Manager) (x : Option (List ℕ × List ℕ))
    → split_at p m.wait_queue ≡ x
    → IsSound m
    → length m.sessions < 2 ^ 32
    → contains id m.sessions ≡ true
    → let after = (remove_waiting p x (active_session_count m) m).1 in
      IsSound (record after { sessions = erase_session id after.sessions })
removed-IsSound id p m none e s h there =
    let n = length m.sessions in
    let w = length m.wait_queue in
    let after = (remove_waiting p none (active_session_count m) m).1 in
    let (same, limit, accepts) = accept_lem (active_session_count m - 1) m.wait_queue 1 [] m refl in
    erased-IsSound id m after same limit (
      leave_active m.active_limit n (length (erase_session id m.sessions)) w
        (length after.wait_queue) s (length-erase_session id m.sessions there)
        (subst (λ c. Accepts m.active_limit (c - 1) w (length after.wait_queue)) (count_lem m s h)
          accepts))
removed-IsSound id p m (some (before, behind)) e s h there =
    let n = length m.sessions in
    let w = length m.wait_queue in
    let after = (remove_waiting p (some (before, behind)) (active_session_count m) m).1 in
    let m1 : Manager = record m {
      wait_queue = before ++ behind;
      calls = m.calls ++ in_queue_set p false ∷ login_handled p ∷ [];
    } in
    let (same, limit, accepts) =
      accept_lem (active_session_count m) (before ++ behind) (suc (length before)) behind m1 refl in
    erased-IsSound id m after same limit (
      leave_waiting m.active_limit n (length (erase_session id m.sessions)) w
        (length (before ++ behind)) (length after.wait_queue) s
        (length-erase_session id m.sessions there) (split-length p m.wait_queue before behind e)
        (subst (λ c. Accepts m.active_limit c (length (before ++ behind)) (length after.wait_queue))
          (count_lem m s h) accepts))

pub remove-IsSound :
    (id p : ℕ) (m : Manager)
    → IsSound m
    → length m.sessions < 2 ^ 32
    → contains id m.sessions ≡ true
    → IsSound (remove_ended id p m)
unfolding remove_ended remove_queued_session
remove-IsSound id p m s h there = removed-IsSound id p m (split_at p m.wait_queue) refl s h there
