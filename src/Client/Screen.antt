-- ===== src/Client/Screen.antt =====
-- src/client/client-core.h and client-core.cpp: the events for the user interface, and SendToGui of
-- src/client/session/session.cpp. vasprintf is the C library's and a parameter.
use project_secure_chat.Base.{
  ℕ, Bool, not, Option, List, [], ◌++◌, ltb, ◌==◌, if◌then◌else◌, length, codes,
}
use project_secure_chat.Base.Result.{Result, ok, ◌>>=◌}
use project_secure_chat.Buffer.Text.{before_zero}
use project_secure_chat.LockQueue.{LockQueue, add, next, is_empty}
use project_secure_chat.Peer.State.{Peer}

-- Message_t
pub record Event : Type 0 where
  pub text : List ℕ
  pub user : List ℕ
  pub kind : ℕ
  pub timestamp : Bool

-- The session, and the `messages` of ClientCore.
pub record Client : Type 0 where
  pub peer : Peer
  pub events : LockQueue Event

-- AddMessage: `now` is what get_timestamp gives.
unfoldable pub event : List ℕ → List ℕ → List ℕ → ℕ → Bool → Event
event now str user kind timestamp =
    let time = if timestamp then codes "(" ++ (now ++ codes ") ") else [] in
    let name = if ltb 0 (length user) then user ++ codes ": " else [] in
    record {
      text = before_zero (time ++ (name ++ str));
      user = user;
      kind = kind;
      timestamp = timestamp;
    }

unfoldable pub add_message : List ℕ → List ℕ → List ℕ → ℕ → Bool → Client → Client
add_message now str user kind timestamp c = record c {
  events = add (event now str user kind timestamp) c.events;
}

-- SendToGui with a string.
unfoldable pub send_to_gui : List ℕ → List ℕ → ℕ → List ℕ → Client → Client
send_to_gui now nick kind msg c = add_message now msg nick kind (not (kind == b'e')) c

-- vasprintf of a format without arguments; the error stands for what is undefined.
abbrev pub Printf : Type 0
Printf = List ℕ → Result (List ℕ)

-- SendToGui with a `const char*`, which is a format.
unfoldable pub send_format_to_gui : Printf → List ℕ → List ℕ → ℕ → List ℕ → Client → Result Client
send_format_to_gui vasprintf now nick kind fmt c = do
  msg ← vasprintf fmt
  ok (send_to_gui now nick kind msg c)

-- EmptyEvents and GetEvent
unfoldable pub empty_events : Client → Bool
empty_events c = is_empty c.events

unfoldable pub get_event : Client → Option (Event × LockQueue Event)
get_event c = next c.events
