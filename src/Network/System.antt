-- ===== src/Network/System.antt =====
-- src/server/networking/network-manager.cpp: QueueSend, QueueRecive and GetNextSession, as the steps of
-- threads. A request is a session and what is to be done for it. The queue and the semaphore have a lock
-- each: `unsignalled` counts the threads between the one and the other of a request that they make,
-- `woken` those behind sem.Wait() that have not asked the queue yet. `added` and `handed` are the
-- requests so far, in the order in which they went into the queue and out of it.
use mathlib.Core.List.{append_assoc}
use project_secure_chat.Base.{
  ℕ, suc, ◌+◌, ◌<◌, ◌≡◌, refl, sym, ap, ◌∙◌, some, List, [], ◌∷◌, ◌++◌, length, length-append,
  arith,
}
use project_secure_chat.LockQueue.{LockQueue, empty_queue, add, next, next_lem, next_found}
use project_secure_chat.Scheduling.System.{signal, wait}
use project_secure_chat.Scheduling.Invariant.{wait_lem}

pub data Kind : Type 0 where
  sends receives : Kind

pub record Network : Type 0 where
  pub requests : LockQueue (ℕ × Kind)
  pub sem : ℕ
  pub unsignalled : ℕ
  pub woken : ℕ
  pub added : List (ℕ × Kind)
  pub handed : List (ℕ × Kind)

abbrev pub start : Network
start = record {
  requests = empty_queue;
  sem = 0;
  unsignalled = 0;
  woken = 0;
  added = [];
  handed = [];
}

-- QueueSend and QueueRecive, up to the semaphore; a session that is not found makes no request.
unfoldable pub queue_request : ℕ × Kind → Network → Network
queue_request r n = record n {
  requests = add r n.requests;
  unsignalled = suc n.unsignalled;
  added = n.added ++ r ∷ [];
}

pub data Step : Network → Network → Type 0 where
  queues : {n : Network} (r : ℕ × Kind) → Step n (queue_request r n)
  signals :
      {n : Network} (k : ℕ)
      → n.unsignalled ≡ suc k
      → Step n (record n { unsignalled = k; sem = signal n.sem })
  wakes :
      {n : Network} (v : ℕ)
      → wait n.sem ≡ some v
      → Step n (record n { sem = v; woken = suc n.woken })
  takes :
      {n : Network} (k : ℕ) (r : ℕ × Kind) (q : LockQueue (ℕ × Kind))
      → n.woken ≡ suc k
      → next n.requests ≡ some (r, q)
      → Step n (record n { requests = q; woken = k; handed = n.handed ++ r ∷ [] })

pub data Reached : Network → Type 0 where
  starts : Reached start
  steps : {n n' : Network} → Reached n → Step n n' → Reached n'

-- Each request in the queue is behind a signal, or will be.
pub record Inv (n : Network) : Type 0 where
  pub counted : (n.unsignalled + n.sem) + n.woken ≡ length n.requests.items
  pub in_order : n.handed ++ n.requests.items ≡ n.added

Step-Inv : {n n' : Network} → Step n n' → Inv n → Inv n'
unfolding queue_request add signal
Step-Inv (queues {n} r) i = record {
  counted = omega (arith, i.counted, length-append n.requests.items (r ∷ []));
  in_order =
      sym (append_assoc n.handed n.requests.items (r ∷ [])) ∙ ap (λ t. t ++ r ∷ []) i.in_order;
}
Step-Inv (signals {n} k h) i = record {
  counted = omega (arith, i.counted, h);
  in_order = i.in_order;
}
Step-Inv (wakes {n} v h) i = record {
  counted = omega (arith, i.counted, wait_lem n.sem v h);
  in_order = i.in_order;
}
Step-Inv (takes {n} k r q h e) i =
    let items = next_lem n.requests q r e in
    record {
      counted = omega (arith, i.counted, h, ap length items);
      in_order =
          append_assoc n.handed (r ∷ []) q.items ∙ ap (λ t. n.handed ++ t) (sym items) ∙ i.in_order;
    }

Reached-Inv : {n : Network} → Reached n → Inv n
Reached-Inv starts = record { counted = refl; in_order = refl }
Reached-Inv (steps r s) = Step-Inv s (Reached-Inv r)

found :
    (items : List (ℕ × Kind))
    → 0 < length items
    → (r : ℕ × Kind) × (rest : List (ℕ × Kind)) × (items ≡ r ∷ rest)
found [] h = absurd (omega arith)
found (r ∷ rest) h = (r, rest, refl)

-- In every run, however the threads' steps interleave, a thread that was woken finds a request, and the
-- threads get the requests in the order in which they went into the queue, each once: what they have
-- got, and then what is in the queue, is what was put there.
pub next_session_lem :
    {n : Network}
    → Reached n
    → (0 < n.woken → (r : ℕ × Kind) × (q : LockQueue (ℕ × Kind)) × (next n.requests ≡ some (r, q)))
      × (n.handed ++ n.requests.items ≡ n.added)
next_session_lem {n} h =
    let i = Reached-Inv h in
    (
      λ busy.
          let (r, rest, e) = found n.requests.items (omega (arith, i.counted)) in
          (r, record n.requests { items = rest }, next_found n.requests r rest e),
      i.in_order,
    )
