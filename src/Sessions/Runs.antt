-- ===== src/Sessions/Runs.antt =====
-- The sessions that come and go.
use project_secure_chat.Base.{ℕ, ◌^◌, ◌<◌, ◌≤◌, ◌≡◌, true, false, [], length, arith}
use project_secure_chat.LockQueue.{empty_queue}
use project_secure_chat.Sessions.Manager.{
  Manager, active_session_count, contains, add_session_now, remove_ended,
}
use project_secure_chat.Sessions.Limit.{IsSound, count_lem, add-IsSound, remove-IsSound}

abbrev pub new_manager : ℕ → ℕ → Manager
new_manager active queue = record {
  sessions = [];
  wait_queue = [];
  active_limit = active;
  queue_limit = queue;
  add_queue = empty_queue;
  calls = [];
}

-- Sessions join under numbers that are not in use, fewer than 2^32 at a time, and end.
pub data Run (active queue : ℕ) : Manager → Type 0 where
  begins : Run active queue (new_manager active queue)
  joins :
      {m : Manager} (id p : ℕ)
      → Run active queue m
      → contains id m.sessions ≡ false
      → length (add_session_now id p m).sessions < 2 ^ 32
      → Run active queue (add_session_now id p m)
  ends :
      {m : Manager} (id p : ℕ)
      → Run active queue m
      → contains id m.sessions ≡ true
      → length (remove_ended id p m).sessions < 2 ^ 32
      → Run active queue (remove_ended id p m)

Run-IsSound :
    {active queue : ℕ} {m : Manager} → Run active queue m → IsSound m × (length m.sessions < 2 ^ 32)
Run-IsSound begins = (
  record { inside = omega arith; within = λ g. omega arith; full = λ g. absurd (omega arith) },
  omega arith,
)
Run-IsSound (joins {m} id p r fresh few) =
    let (s, h) = Run-IsSound r in (add-IsSound id p m s h fresh, few)
Run-IsSound (ends {m} id p r there few) =
    let (s, h) = Run-IsSound r in (remove-IsSound id p m s h there, few)

-- In every run, under a limit no more sessions are active than it allows, and while a session waits exactly
-- as many are active. It is assumed that sessions join under numbers that are not in use.
pub active_lem :
    {active queue : ℕ} {m : Manager}
    → Run active queue m
    → (0 < m.active_limit → active_session_count m ≤ m.active_limit)
      × (0 < length m.wait_queue → active_session_count m ≡ m.active_limit)
active_lem {m = m} r =
    let (s, h) = Run-IsSound r in
    let count = count_lem m s h in
    (
      λ g. omega (arith, count, s.inside, s.within g),
      λ g. omega (arith, count, s.inside, (s.full g).1),
    )
