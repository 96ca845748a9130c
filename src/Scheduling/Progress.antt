-- ===== src/Scheduling/Progress.antt =====
-- The workers always find a request behind the semaphore, and there is always a next step for the thread
-- that waits for the updates or for a worker.
use project_secure_chat.Base.{
  ℕ, zero, suc, ◌^◌, ◌<◌, ◌≡◌, refl, ap, ◌⊎◌, inl, inr, Bool-cases, Option-cases, false, none, some,
  List, [], ◌∷◌, ◌==◌, ==_iff, length, arith,
}
use project_secure_chat.LockQueue.{LockQueue, next, next-none}
use project_secure_chat.Scheduling.System.{
  Updater, System, idle, Reach, start, later, InInt, outstanding, wait, wait_updates,
}
use project_secure_chat.Scheduling.Invariant.{Inv, init-Inv, Step-Inv, unsignalled, uncounted}

pub Reach-Inv : {s : System} → Reach s → Inv s × (outstanding s < 2 ^ 64)
Reach-Inv start = (init-Inv, omega arith)
Reach-Inv (later r step fits) = let (i, k) = Reach-Inv r in (Step-Inv i step fits k, fits)

-- In every run, a worker that has passed the semaphore finds a request: GetNextMethod never returns
-- NULL.
pub found_lem :
    {s : System}
    → Reach s
    → 0 < s.woken
    → (m : ℕ) × (q : LockQueue ℕ) × (next s.q_method ≡ some (m, q))
found_lem {s} r h = elim (Option-cases (next s.q_method)) [
  | inl e ↦ absurd (omega (arith, (Reach-Inv r).0.queued, ap length (next-none s.q_method e)))
  | inr ((m, q), e) ↦ (m, q, e)
]

-- In every run, whenever no update is just being scheduled, pending_requests is the number of
-- requests that are queued or running.
pub pending_lem :
    {s : System} → Reach s → s.stage ≡ idle → s.updater.pending_requests ≡ outstanding s
pending_lem r h = let i = (Reach-Inv r).0 in omega (arith, i.counted, ap uncounted h)

wait_one : (n : ℕ) → 0 < n → (v : ℕ) × (wait n ≡ some v)
unfolding wait
wait_one zero h = absurd (omega arith)
wait_one (suc n) h = (n, refl)

-- Where all requests are finished, Wait takes a signal or does not need one.
ready_lem :
    (s : System)
    → Inv s
    → s.updater.pending_requests ≡ 0
    → (u : Updater) × (wait_updates s.updater ≡ some u)
unfolding wait_updates
ready_lem s i h = elim (Bool-cases s.updater.active) [
  | inr e ↦ (record s.updater { active = false }, rw e)
  | inl e ↦
      let (v, f) = wait_one s.updater.sem (i.ready e h) in
      (record s.updater { sem = v; active = false }, rw (e, f))
]

-- A worker's next step: behind the semaphore, in front of it, or at the end of Call.
pub data Works (s : System) : Type 0 where
  takes : (m : ℕ) (q : LockQueue ℕ) → 0 < s.woken → next s.q_method ≡ some (m, q) → Works s
  passes : (v : ℕ) → wait s.sem ≡ some v → Works s
  ends : (m : ℕ) (rest : List ℕ) → s.running ≡ m ∷ rest → Works s

running_cases : (xs : List ℕ) → (xs ≡ []) ⊎ ((m : ℕ) × (rest : List ℕ) × (xs ≡ m ∷ rest))
running_cases [] = inl refl
running_cases (m ∷ rest) = inr (m, rest, refl)

wait_zero : (n : ℕ) → wait n ≡ none → n ≡ 0
unfolding wait
wait_zero zero e = refl
wait_zero (suc n) e = cc

works_lem : (s : System) → Reach s → s.stage ≡ idle → 0 < outstanding s → Works s
works_lem s r h some_left = elim (Option-cases (wait s.sem)) [
  | inr (v, e) ↦ passes v e
  | inl e ↦ elim (running_cases s.running) [
    | inr (m, rest, f) ↦ ends m rest f
    | inl f ↦
        let i = (Reach-Inv r).0 in
        let behind : 0 < s.woken =
          omega (arith, i.queued, wait_zero s.sem e, ap unsignalled h, ap length f) in
        let (m, q, g) = found_lem r behind in takes m q behind g
  ]
]

-- In every run in which the values of both semaphores fit an int, whenever no update is just being
-- scheduled, Wait can return or a worker has a next step.
pub wait_progress :
    {s : System} (r : Reach s)
    → InInt r
    → s.stage ≡ idle
    → ((u : Updater) × (wait_updates s.updater ≡ some u)) ⊎ Works s
wait_progress {s} r fits h =
    let n = pending_lem r h in
    elim (Bool-cases (outstanding s == 0)) [
      | inl e ↦ inl (ready_lem s (Reach-Inv r).0 (omega (arith, n, (==_iff (outstanding s) 0).0 e)))
      | inr e ↦ inr (works_lem s r h (ground arith))
    ]
