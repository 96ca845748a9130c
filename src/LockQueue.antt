-- ===== src/LockQueue.antt =====
-- src/shared/utility/queues/lock_queue.h: the queues between the threads. Every method
-- holds the queue's mutex from its beginning to its end, so that a call is one step.
use mathlib.Core.Option.{some-injective}
use mathlib.Core.List.{append_assoc, append-nil}
use project_secure_chat.Base.{
  ℕ, ◌≡◌, refl, sym, ap, ap₂, ◌∙◌, Bool, true, false, Option, none, some, List, [], ◌∷◌, ◌++◌,
  if◌then◌else◌, length,
}
use project_secure_chat.Base.Result.{Result, ok, err, out_of_bounds, ◌>>=◌}

pub record LockQueue {ℓ} (A : Type ℓ) : Type ℓ where
  pub items : List A
  pub canceled : Bool

-- What next(result, check) gives: the front even where the check refuses it.
pub data Checked {ℓ} (A : Type ℓ) : Type ℓ where
  nothing : Checked A
  refused : A → Checked A
  taken : A → LockQueue A → Checked A

-- What a producer and a consumer do with a queue, in the order in which they get the lock.
pub data Access {ℓ} (A : Type ℓ) : Type ℓ where
  adds : A → Access A
  takes : Access A

module _ {ℓ} {A : Type ℓ} where
  abbrev pub empty_queue : LockQueue A
  empty_queue = record { items = []; canceled = false }

  unfoldable pub add : A → LockQueue A → LockQueue A
  add a q = record q { items = q.items ++ a ∷ [] }

  pop : List A → LockQueue A → Option (A × LockQueue A)
  pop [] q = none
  pop (a ∷ as') q = some (a, record q { items = as' })

  -- next(result): `none` stands for false.
  unfoldable pub next : LockQueue A → Option (A × LockQueue A)
  unfolding pop
  next q = pop q.items q

  check_front : (A → Result Bool) → List A → LockQueue A → Result (Checked A)
  check_front check [] q = ok nothing
  check_front check (a ∷ as') q = do
    passes ← check a
    ok (if passes then taken a (record q { items = as' }) else refused a)

  unfoldable pub next_checked : (A → Result Bool) → LockQueue A → Result (Checked A)
  unfolding check_front
  next_checked check q = check_front check q.items q

  front : List A → Result A
  front [] = err out_of_bounds
  front (a ∷ as') = ok a

  -- front() of an empty deque is undefined.
  unfoldable pub peek : LockQueue A → Result A
  unfolding front
  peek q = front q.items

  unfoldable pub cancel : LockQueue A → LockQueue A
  cancel q = record q { canceled = true }

  unfoldable pub cancelled : LockQueue A → Bool
  cancelled q = q.canceled

  tail : List A → Result (List A)
  tail [] = err out_of_bounds
  tail (a ∷ as') = ok as'

  unfoldable pub pop_front : LockQueue A → Result (LockQueue A)
  unfolding tail
  pop_front q = do rest ← tail q.items; ok (record q { items = rest })

  no_items : List A → Bool
  no_items [] = true
  no_items (a ∷ as') = false

  unfoldable pub is_empty : LockQueue A → Bool
  unfolding no_items
  is_empty q = no_items q.items

  unfoldable pub queue_size : LockQueue A → ℕ
  queue_size q = length q.items

  -- The items that the consumer got, in its order, and the queue.
  unfoldable pub run : List (Access A) → LockQueue A → List A × LockQueue A
  run [] q = ([], q)
  run (adds a ∷ rest) q = run rest (add a q)
  run (takes ∷ rest) q = elim (next q) [
    | none ↦ run rest q
    | some (a, q') ↦ let (got, end) = run rest q' in (a ∷ got, end)
  ]

  abbrev pub added : List (Access A) → List A
  added [] = []
  added (adds a ∷ rest) = a ∷ added rest
  added (takes ∷ rest) = added rest

  run_items :
      (accesses : List (Access A)) (xs : List A) (c : Bool)
      → let r = run accesses (record { items = xs; canceled = c }) in
        r.0 ++ r.1.items ≡ xs ++ added accesses
  unfolding run next add
  run_items [] xs c = sym (append-nil xs)
  run_items (adds a ∷ rest) xs c =
      run_items rest (xs ++ a ∷ []) c ∙ append_assoc xs (a ∷ []) (added rest)
  run_items (takes ∷ rest) [] c = run_items rest [] c
  run_items (takes ∷ rest) (x ∷ xs) c = ap (◌∷◌ x) (run_items rest xs c)

  -- However the threads' calls interleave, what the consumer gets followed by what is left in the
  -- queue is what was in it followed by what was added, in order: nothing is lost, repeated or
  -- overtaken.
  pub run_fifo :
      (accesses : List (Access A)) (q : LockQueue A)
      → (run accesses q).0 ++ (run accesses q).1.items ≡ q.items ++ added accesses
  run_fifo accesses q = run_items accesses q.items q.canceled

  pop_lem : (xs : List A) (q q' : LockQueue A) (a : A) → pop xs q ≡ some (a, q') → xs ≡ a ∷ q'.items
  unfolding pop
  pop_lem [] q q' a e = cc
  pop_lem (x ∷ xs) q q' a e =
      let f : (x, record q { items = xs }) ≡ (a, q') =
        some-injective (x, record q { items = xs }) (a, q') e in
      ap₂ (λ y r. y ∷ r) (ap (λ r. r.0) f) (ap (λ r. r.1.items) f)

  pub next_lem : (q q' : LockQueue A) (a : A) → next q ≡ some (a, q') → q.items ≡ a ∷ q'.items
  unfolding next
  next_lem q q' a e = pop_lem q.items q q' a e

  -- Only an empty queue gives nothing.
  pub next_found :
      (q : LockQueue A) (x : A) (xs : List A)
      → q.items ≡ x ∷ xs
      → next q ≡ some (x, record q { items = xs })
  unfolding next
  next_found q x xs e = ap (λ ys. pop ys q) e

  pop-none : (xs : List A) (q : LockQueue A) → pop xs q ≡ none → xs ≡ []
  unfolding pop
  pop-none [] q e = refl
  pop-none (x ∷ xs) q e = cc

  pub next-none : (q : LockQueue A) → next q ≡ none → q.items ≡ []
  unfolding next
  next-none q e = pop-none q.items q e
