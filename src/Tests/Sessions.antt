-- ===== src/Tests/Sessions.antt =====
-- A run of the session manager with a limit of one active session.
use project_secure_chat.Base.{◌<◌, ◌≤◌, ◌≡◌, refl, length, arith}
use project_secure_chat.Sessions.Manager.{
  Manager, active_session_count, contains, insert_session, note, add_queued_session,
  add_session_now, queue_pos,
}
use project_secure_chat.Sessions.Runs.{new_manager, Run, begins, joins, active_lem}

abbrev one_in : Manager
one_in = add_session_now 4 100 (new_manager 1 0)

abbrev one_waits : Manager
one_waits = add_session_now 5 101 one_in

one_waits-Run : Run 1 0 one_waits
unfolding add_session_now add_queued_session note insert_session contains active_session_count
    queue_pos
one_waits-Run = joins 5 101 (joins 4 100 begins refl (omega arith)) refl (omega arith)

active_lem_example :
    (0 < one_waits.active_limit → active_session_count one_waits ≤ one_waits.active_limit)
    × (0 < length one_waits.wait_queue → active_session_count one_waits ≡ one_waits.active_limit)
active_lem_example = active_lem one_waits-Run
