-- ===== src/Tests/Scheduling.antt =====
-- Runs of the scheduling engine and the channel updater.
use project_secure_chat.Base.{ℕ, ◌≡◌, refl, ◌⊎◌, true, false, some, [], arith}
use project_secure_chat.LockQueue.{LockQueue, empty_queue, add, next}
use project_secure_chat.Scheduling.System.{
  Updater, System, adds, signals, counts, wakes, finds, finishes, Reach, start, later, init, signal,
  wait, count_request, update_finished, wait_updates,
}
use project_secure_chat.Scheduling.Progress.{Works, found_lem, wait_progress}

-- One request for channel 7 is scheduled, and a worker is behind the semaphore.
abbrev scheduled : System
scheduled = record init {
  q_method = add 7 empty_queue;
  sem = 1;
  updater = record { pending_requests = 1; active = true; sem = 0 };
}

scheduled-Reach : Reach scheduled
unfolding add signal count_request
scheduled-Reach =
    later (later (later start (adds 7 refl) (omega arith)) (signals refl) (omega arith))
      (counts refl) (omega arith)

abbrev behind : System
behind = record scheduled { sem = 0; woken = 1 }

behind-Reach : Reach behind
unfolding wait add
behind-Reach = later scheduled-Reach (wakes refl) (omega arith)

found_lem_example : (m : ℕ) × (q : LockQueue ℕ) × (next behind.q_method ≡ some (m, q))
found_lem_example = found_lem behind-Reach (omega arith)

wait_progress_example :
    ((u : Updater) × (wait_updates scheduled.updater ≡ some u)) ⊎ Works scheduled
unfolding add signal count_request
wait_progress_example =
    wait_progress
      (later (later (later start (adds 7 refl) (omega arith)) (signals refl) (omega arith))
        (counts refl) (omega arith))
      (((tt, omega arith, omega arith), omega arith, omega arith), omega arith, omega arith) refl

-- The request is finished before the next one is scheduled: its signal lets Wait through while the
-- second request is still queued.
abbrev finished : System
finished = record init { updater = record { pending_requests = 0; active = true; sem = 1 } }

finished-Reach : Reach finished
unfolding add next update_finished signal
finished-Reach =
    later (later behind-Reach (finds refl refl) (omega arith)) (finishes 7 [] [] refl refl)
      (omega arith)

abbrev second : System
second = record init {
  q_method = add 8 empty_queue;
  sem = 1;
  updater = record { pending_requests = 1; active = true; sem = 1 };
}

second-Reach : Reach second
unfolding add signal count_request
second-Reach =
    later (later (later finished-Reach (adds 8 refl) (omega arith)) (signals refl) (omega arith))
      (counts refl) (omega arith)

second_waits :
    wait_updates second.updater ≡ some (record { pending_requests = 1; active = false; sem = 0 })
unfolding wait_updates wait
second_waits = refl
