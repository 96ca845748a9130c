-- ===== src/Scheduling/System.antt =====
-- src/shared/threading/semaphore.h, src/server/threading/scheduling-engine.cpp and
-- src/server/channel/channel-updater.cpp, as the steps of threads: one that schedules updates of channels and waits for them, and
-- any number that work. A request is the number of its channel. What a thread does under one lock is
-- one step, and so is what no other thread can see. `stage` says how far ScheduleUpdate has come, which holds the
-- updater's lock throughout; `woken` counts the workers behind sem.Wait() and before next(), `running` has
-- the requests whose Call has not finished. The values of the semaphores are
-- unbounded numbers; `InInt` says of a run that they fit the source's int.
use project_secure_chat.Base.{
  ℕ, zero, suc, ◌+◌, ◌-◌, ◌%◌, ◌^◌, ◌<◌, ◌≡◌, Bool, true, false, Option, none, some, List, [], ◌∷◌,
  ◌++◌, ◌==◌, if◌then◌else◌, length,
}
use project_secure_chat.LockQueue.{LockQueue, empty_queue, add, next}

-- Semaphore::Signal and Semaphore::Wait, which blocks as long as there is nothing to take.
unfoldable pub signal : ℕ → ℕ
signal v = v + 1

unfoldable pub wait : ℕ → Option ℕ
wait zero = none
wait (suc v) = some v

-- ChannelUpdater.
pub record Updater : Type 0 where
  pub pending_requests : ℕ
  pub active : Bool
  pub sem : ℕ

-- The end of ScheduleUpdate.
unfoldable pub count_request : Updater → Updater
count_request u = record u { pending_requests = (u.pending_requests + 1) % 2 ^ 64; active = true }

-- UpdateFinished
unfoldable pub update_finished : Updater → Updater
unfolding signal
update_finished u =
    let n = (u.pending_requests + 2 ^ 64 - 1) % 2 ^ 64 in
    record u { pending_requests = n; sem = if n == 0 then signal u.sem else u.sem }

taken_signal : Option ℕ → Updater → Option Updater
taken_signal none u = none
taken_signal (some v) u = some (record u { sem = v; active = false })

-- Wait
unfoldable pub wait_updates : Updater → Option Updater
unfolding taken_signal
wait_updates u =
    if u.active then taken_signal (wait u.sem) u else some (record u { active = false })

pub data Stage : Type 0 where
  idle added signalled : Stage

pub record System : Type 0 where
  pub q_method : LockQueue ℕ
  pub sem : ℕ
  pub updater : Updater
  pub stage : Stage
  pub woken : ℕ
  pub running : List ℕ

abbrev pub init : System
init = record {
  q_method = empty_queue;
  sem = 0;
  updater = record { pending_requests = 0; active = false; sem = 0 };
  stage = idle;
  woken = 0;
  running = [];
}

pub data Step (s : System) : System → Type 0 where
  -- ScheduleUpdate: Execute adds the request and signals, and the request is counted.
  adds : (m : ℕ) → s.stage ≡ idle → Step s (record s { stage = added; q_method = add m s.q_method })
  signals : s.stage ≡ added → Step s (record s { stage = signalled; sem = signal s.sem })
  counts :
      s.stage ≡ signalled → Step s (record s { stage = idle; updater = count_request s.updater })
  -- GetNextMethod: Wait, then next, which may find nothing.
  wakes : {v : ℕ} → wait s.sem ≡ some v → Step s (record s { sem = v; woken = suc s.woken })
  finds :
      {w m : ℕ} {q : LockQueue ℕ}
      → s.woken ≡ suc w
      → next s.q_method ≡ some (m, q)
      → Step s (record s { q_method = q; woken = w; running = m ∷ s.running })
  misses : {w : ℕ} → s.woken ≡ suc w → next s.q_method ≡ none → Step s (record s { woken = w })
  -- UpdateFinished at the end of Call.
  finishes :
      (m : ℕ) (before behind : List ℕ)
      → s.stage ≡ idle
      → s.running ≡ before ++ m ∷ behind
      → Step s (record s { running = before ++ behind; updater = update_finished s.updater })
  -- ChannelUpdater::Wait
  waits :
      {u : Updater}
      → s.stage ≡ idle
      → wait_updates s.updater ≡ some u
      → Step s (record s { updater = u })

-- The requests that are not finished.
abbrev pub outstanding : System → ℕ
outstanding s = length s.q_method.items + length s.running

-- The states that a run reaches in which fewer than 2^64 requests are outstanding at any time.
pub data Reach : System → Type 0 where
  start : Reach init
  later : {s t : System} → Reach s → Step s t → outstanding t < 2 ^ 64 → Reach t

-- Along the run the values of both semaphores are those of an int.
abbrev pub InInt : {s : System} → Reach s → Type 0
InInt start = Unit {0}
InInt (later {t = t} r step fits) = InInt r × (t.sem < 2 ^ 31) × (t.updater.sem < 2 ^ 31)
