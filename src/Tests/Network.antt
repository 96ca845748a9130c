-- ===== src/Tests/Network.antt =====
-- Instances of the theorems on the threads of the network.
use project_secure_chat.Base.{ℕ, ◌<◌, ◌≡◌, refl, none, some, false, [], ◌∷◌}
use project_secure_chat.Base.Result.{ok}
use project_secure_chat.LockQueue.{LockQueue, add, next}
use project_secure_chat.Scheduling.System.{signal, wait}
use project_secure_chat.Network.System.{
  Network, Kind, receives, Reached, starts, steps, queues, signals, wakes, start, queue_request,
  next_session_lem,
}
use project_secure_chat.Network.Threads
use project_secure_chat.Network.Threads.{Sender, sender, hold, overtaken_lem}
use project_secure_chat.Buffer.Text.{before_zero}
use project_secure_chat.World.Heap.{World, set_channel}
use project_secure_chat.World.Members.{In}
use project_secure_chat.World.Consistent.{Consistent, members_of}
use project_secure_chat.World.Ending.{end_session, end_session_lem}
use project_secure_chat.Tests.Server.{server, server-Consistent}
use project_secure_chat.Tests.Xml.{messages, bob-Encodable}

-- One request, and a thread that was woken for it.
abbrev asked : Network
asked = record start {
  requests = record { items = (7, receives) ∷ []; canceled = false };
  woken = 1;
  added = (7, receives) ∷ [];
}

asked-Reached : Reached asked
unfolding queue_request add signal wait
asked-Reached = steps (steps (steps starts (queues (7, receives))) (signals 0 refl)) (wakes 0 refl)

next_session_lem_example :
    (0 < 1 → (r : ℕ × Kind) × (q : LockQueue (ℕ × Kind)) × (next asked.requests ≡ some (r, q)))
    × ((7, receives) ∷ [] ≡ asked.added)
next_session_lem_example = next_session_lem asked-Reached

-- One thread that has taken the first of two packets.
abbrev holding : Sender ℕ
holding = hold 0 8 (9 ∷ []) (sender (8 ∷ 9 ∷ []))

overtaken_lem_example :
    (s : Sender ℕ) × Threads.Run 2 (8 ∷ 9 ∷ []) s × (s.sent ≡ 9 ∷ 8 ∷ []) × (s.queue ≡ [])
overtaken_lem_example = overtaken_lem 8 9 []

end_session_lem_example :
    (w' : World) × (end_session messages 10 0 server ≡ ok w')
    × ((w'.sessions 0).has_this ≡ false)
    × ((c k : ℕ) → ¬ In k 0 (members_of w' c))
    × Consistent (set_channel 0 none w')
unfolding before_zero
end_session_lem_example = end_session_lem messages 10 0 server server-Consistent bob-Encodable
