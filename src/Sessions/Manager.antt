-- ===== src/Sessions/Manager.antt =====
-- src/server/session/session-manager.h and session-manager.cpp: the sessions by their number, which is
-- that of the socket, and the queue of those that wait while the limit of active sessions is reached. A session
-- is the number of its object; what the manager calls on one is noted in `calls`.
use project_secure_chat.Base.{
  ℕ, suc, ◌+◌, ◌-◌, ◌%◌, ◌^◌, Bool, true, false, not, ◌&&◌, ◌||◌, Option, none, some, List, [], ◌∷◌,
  ◌++◌, ltb, leb, ◌==◌, if◌then◌else◌, length,
}
use project_secure_chat.LockQueue.{LockQueue, add, queue_size}

pub data Call : Type 0 where
  -- SetInQueue, SendWaitQueue, SetId, HandleLogin
  in_queue_set : ℕ → Bool → Call
  wait_queue_sent : ℕ → ℕ → Call
  id_set : ℕ → ℕ → Call
  login_handled : ℕ → Call

pub record Manager : Type 0 where
  pub sessions : List (ℕ × ℕ)
  pub wait_queue : List ℕ
  pub active_limit : ℕ
  pub queue_limit : ℕ
  pub add_queue : LockQueue ℕ
  pub calls : List Call

unfoldable pub note : Call → Manager → Manager
note c m = record m { calls = m.calls ++ c ∷ [] }

unfoldable pub active_session_count : Manager → ℕ
active_session_count m = (length m.sessions + 2 ^ 64 - length m.wait_queue) % 2 ^ 64 % 2 ^ 32

unfoldable pub contains : ℕ → List (ℕ × ℕ) → Bool
contains id [] = false
contains id ((n, p) ∷ rest) = n == id || contains id rest

-- insert of the map, which keeps what it has under the number.
unfoldable pub insert_session : ℕ → ℕ → List (ℕ × ℕ) → List (ℕ × ℕ)
insert_session id p ss = if contains id ss then ss else ss ++ (id, p) ∷ []

unfoldable pub erase_session : ℕ → List (ℕ × ℕ) → List (ℕ × ℕ)
erase_session id [] = []
erase_session id ((n, p) ∷ rest) = if n == id then rest else (n, p) ∷ erase_session id rest

queue_pos_from : ℕ → ℕ → List ℕ → ℕ
queue_pos_from position p [] = 0
queue_pos_from position p (q ∷ qs) = if q == p then position else queue_pos_from (suc position) p qs

-- GetQueuePos
unfoldable pub queue_pos : ℕ → Manager → ℕ
unfolding queue_pos_from
queue_pos p m = queue_pos_from 1 p m.wait_queue

-- AddQueuedSession
unfoldable pub add_queued_session : ℕ → Manager → Manager
unfolding note
add_queued_session p m =
    let m1 = record (note (in_queue_set p true) m) { wait_queue = m.wait_queue ++ p ∷ [] } in
    note (wait_queue_sent p (queue_pos p m1)) m1

-- AddSession_
unfoldable pub add_session_now : ℕ → ℕ → Manager → Manager
unfolding note
add_session_now id p m =
    if not (m.active_limit == 0) && leb m.active_limit (active_session_count m)
    then (let m1 = note (id_set p id) (add_queued_session p m) in
        record m1 { sessions = insert_session id p m1.sessions })
    else (let m1 = note (id_set p id) m in
        note (login_handled p) (record m1 { sessions = insert_session id p m1.sessions }))

-- The loop of RemoveQueuedSession: what comes before the session, and what behind it.
unfoldable pub split_at : ℕ → List ℕ → Option (List ℕ × List ℕ)
split_at p [] = none
split_at p (q ∷ qs) =
    if q == p
    then some ([], qs)
    else elim (split_at p qs) [ none ↦ none | some (before, behind) ↦ some (q ∷ before, behind) ]

-- SendWaitQueue for all from a position on.
unfoldable pub tell_positions : ℕ → List ℕ → List Call
tell_positions position [] = []
tell_positions position (q ∷ qs) = wait_queue_sent q position ∷ tell_positions (suc position) qs

-- The first that waits is accepted, if there is room.
abbrev pub accept_first : ℕ → List ℕ → ℕ → List ℕ → Manager → Manager
accept_first sessions [] position rest m = record m {
  calls = m.calls ++ tell_positions position rest;
}
accept_first sessions (q ∷ qs) position rest m =
    if m.active_limit == 0 || ltb sessions m.active_limit
    then record m {
      wait_queue = qs;
      calls = m.calls ++ in_queue_set q false ∷ login_handled q ∷ tell_positions 1 qs;
    }
    else record m { calls = m.calls ++ tell_positions position rest }

abbrev pub remove_waiting : ℕ → Option (List ℕ × List ℕ) → ℕ → Manager → Bool × Manager
remove_waiting p none sessions m = (false, accept_first (sessions - 1) m.wait_queue 1 [] m)
remove_waiting p (some (before, behind)) sessions m =
    let m1 = record m {
      wait_queue = before ++ behind;
      calls = m.calls ++ in_queue_set p false ∷ login_handled p ∷ [];
    } in
    (true, accept_first sessions m1.wait_queue (suc (length before)) behind m1)

-- RemoveQueuedSession
unfoldable pub remove_queued_session : ℕ → Manager → Bool × Manager
remove_queued_session p m = remove_waiting p (split_at p m.wait_queue) (active_session_count m) m

-- What Update does with a session whose Update returned false, but for its channel.
unfoldable pub remove_ended : ℕ → ℕ → Manager → Manager
remove_ended id p m =
    let m1 = (remove_queued_session p m).1 in record m1 { sessions = erase_session id m1.sessions }

-- AddSession(sock): `p` is the session that would be made; false stands for a null pointer.
unfoldable pub add_session_later : ℕ → Manager → Bool × Manager
add_session_later p m =
    if m.queue_limit == 0 || ltb (length m.wait_queue + queue_size m.add_queue) m.queue_limit
    then (true, record m { add_queue = add p m.add_queue })
    else (false, m)
