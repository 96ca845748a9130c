-- ===== src/Scheduling/Invariant.antt =====
-- What every run of the scheduling engine and the channel updater keeps.
use project_secure_chat.Base.{
  ℕ, zero, suc, ◌+◌, ◌-◌, ◌%◌, ◌^◌, ◌<◌, ◌≡◌, refl, sym, ap, ◌∙◌, inl, inr, Bool-cases,
  Option-cases, true, false, Option, none, some, [], ◌∷◌, ◌++◌, ==_iff, length, length-append,
  arith,
}
use mathlib.Core.Option.{some-injective}
use project_secure_chat.LockQueue.{add, next_lem, next-none}
use project_secure_chat.Scheduling.System.{
  Updater, System, Stage, idle, added, signalled, Step, adds, signals, counts, wakes, finds, misses,
  finishes, waits, init, outstanding, signal, wait, count_request, update_finished, wait_updates,
}

-- One more in the queue than was signalled, and one more outstanding than was counted.
abbrev pub unsignalled : Stage → ℕ
unsignalled idle = 0
unsignalled added = 1
unsignalled signalled = 0

abbrev pub uncounted : Stage → ℕ
uncounted idle = 0
uncounted added = 1
uncounted signalled = 1

-- What Wait needs: if updates were scheduled since the last Wait and all are finished, there is a
-- signal to take.
abbrev pub Signalled : Updater → Type 0
Signalled u = u.active ≡ true → u.pending_requests ≡ 0 → 0 < u.sem

pub record Inv (s : System) : Type 0 where
  pub queued : s.sem + s.woken + unsignalled s.stage ≡ length s.q_method.items
  pub counted : s.updater.pending_requests + uncounted s.stage ≡ outstanding s
  pub ready : Signalled s.updater

pub init-Inv : Inv init
init-Inv = record { queued = refl; counted = refl; ready = λ h k. cc }

pub wait_lem : (n v : ℕ) → wait n ≡ some v → n ≡ suc v
unfolding wait
wait_lem zero v e = cc
wait_lem (suc n) v e = cc

finished-Inv :
    (u : Updater) (p : ℕ)
    → u.pending_requests ≡ suc p
    → suc p < 2 ^ 64
    → ((update_finished u).pending_requests ≡ p) × Signalled (update_finished u)
unfolding update_finished signal
finished-Inv u p e h =
    let n = (u.pending_requests + 2 ^ 64 - 1) % 2 ^ 64 in
    let less : n ≡ p = omega arith in (less, λ a k. rw ((==_iff n 0).1 k) (omega arith))

same_pending :
    (u u' : Updater) (v : ℕ)
    → ◌≡◌ {A = Option Updater} (some (record u { sem = v; active = false })) (some u')
    → (u'.pending_requests ≡ u.pending_requests) × (u'.active ≡ false)
same_pending u u' v e =
    let f = some-injective (record u { sem = v; active = false }) u' e in
    (sym (ap (λ (w : Updater). w.pending_requests) f), sym (ap (λ (w : Updater). w.active) f))

none_taken :
    (u u' : Updater)
    → ◌≡◌ {A = Option Updater} none (some u')
    → (u'.pending_requests ≡ u.pending_requests) × (u'.active ≡ false)
none_taken u u' e = cc

off_on : (u : Updater) → u.active ≡ false → ¬ (u.active ≡ true)
off_on u h k = cc

waits-Inv :
    (u u' : Updater)
    → wait_updates u ≡ some u'
    → (u'.pending_requests ≡ u.pending_requests) × (u'.active ≡ false)
unfolding wait_updates
waits-Inv u u' e = elim (Bool-cases u.active) [
  | inr f ↦ same_pending u u' u.sem (rw f at e)
  | inl f ↦ elim (Option-cases (wait u.sem)) [
    | inl k ↦ none_taken u u' (rw (f, k) at e)
    | inr (v, k) ↦ same_pending u u' v (rw (f, k) at e)
  ]
]

pub Step-Inv :
    {s t : System} → Inv s → Step s t → outstanding t < 2 ^ 64 → outstanding s < 2 ^ 64 → Inv t
unfolding add signal count_request
Step-Inv {s} i (adds m h) k l =
    let longer = length-append s.q_method.items (m ∷ []) in
    record {
      queued = omega (arith, i.queued, ap unsignalled h, longer);
      counted = omega (arith, i.counted, ap uncounted h, longer);
      ready = i.ready;
    }
Step-Inv {s} i (signals h) k l = record {
  queued = omega (arith, i.queued, ap unsignalled h);
  counted = omega (arith, i.counted, ap uncounted h);
  ready = i.ready;
}
Step-Inv {s} i (counts h) k l = record {
  queued = omega (arith, i.queued, ap unsignalled h);
  counted = omega (arith, i.counted, ap uncounted h, l);
  ready = λ a b. absurd (omega (arith, i.counted, ap uncounted h, l, b));
}
Step-Inv {s} i (wakes {v} h) k l = record {
  queued = omega (arith, i.queued, wait_lem s.sem v h);
  counted = i.counted;
  ready = i.ready;
}
Step-Inv {s} i (finds {w} {m} {q} h e) k l =
    let shorter = ap length (next_lem s.q_method q m e) in
    record {
      queued = omega (arith, i.queued, h, shorter);
      counted = omega (arith, i.counted, shorter);
      ready = i.ready;
    }
Step-Inv {s} i (misses h e) k l =
    absurd (omega (arith, i.queued, h, ap length (next-none s.q_method e)))
Step-Inv {s} i (finishes m before behind h e) k l =
    let left = length s.q_method.items + length (before ++ behind) in
    let one_less = ap length e ∙ length-append before (m ∷ behind) in
    let rest = length-append before behind in
    let (less, ready) =
      finished-Inv s.updater left (omega (arith, i.counted, ap uncounted h, one_less, rest))
        (omega (arith, l, one_less, rest)) in
    record { queued = i.queued; counted = omega (arith, less, ap uncounted h); ready = ready }
Step-Inv {s} i (waits {u} h e) k l =
    let (same, off) = waits-Inv s.updater u e in
    record {
      queued = i.queued;
      counted = omega (arith, i.counted, same);
      ready = λ a b. absurd (off_on u off a);
    }
