-- ===== src/World/Heap.antt =====
-- src/server/session/session.h, session.cpp, src/server/channel/channel.h, channel-manager.h and
-- session-manager.h: the objects behind the counted pointers. A pointer is a number, the NULL pointer
-- `none`. An unordered map is the list of its pairs in the order of its iteration, and a new pair
-- goes to the end. A packet that the server sends is its opcode and the fields written to it.
use project_secure_chat.Base.{
  ℕ, Bool, false, not, Option, none, some, List, [], ◌∷◌, ◌++◌, ◌==◌, if◌then◌else◌,
}
use project_secure_chat.Buffer.Defs.{bytes_eq}
use project_secure_chat.LockQueue.{LockQueue, add}

pub data Field : Type 0 where
  text_field : List ℕ → Field
  number_field : ℕ → Field

pub record Message : Type 0 where
  pub opcode : ℕ
  pub fields : List Field

-- `connected`: m_Socket is there and not closed. `has_this`: smartThis is not NULL.
pub record Session : Type 0 where
  pub id : ℕ
  pub username : List ℕ
  pub connected : Bool
  pub has_this : Bool
  pub channel : Option ℕ
  pub send_queue : LockQueue Message

pub record Channel : Type 0 where
  pub name : List ℕ
  pub pass : List ℕ
  pub members : List (ℕ × ℕ)

-- `channel_count`: the pointer of the next `new Channel`. `names` is m_channels of the channel
-- manager, `session_map` is m_sessions of the session manager, `network_queue` the sessions that
-- the network manager was told to send for.
pub record World : Type 0 where
  pub sessions : ℕ → Session
  pub channels : ℕ → Channel
  pub channel_count : ℕ
  pub names : List (List ℕ × ℕ)
  pub session_map : List (ℕ × ℕ)
  pub network_queue : List ℕ

abbrev pub put_at {ℓ} : {A : Type ℓ} → ℕ → A → (ℕ → A) → ℕ → A
put_at p a f q = if q == p then a else f q

abbrev pub set_session : ℕ → Session → World → World
set_session p s w = record w { sessions = put_at p s w.sessions }

abbrev pub set_channel_at : ℕ → Channel → World → World
set_channel_at c ch w = record w { channels = put_at c ch w.channels }

-- Maps from numbers: find, insert, which keeps what is there, and erase.
unfoldable pub find : ℕ → List (ℕ × ℕ) → Option ℕ
find k [] = none
find k ((j, p) ∷ rest) = if j == k then some p else find k rest

add_missing : Option ℕ → ℕ → ℕ → List (ℕ × ℕ) → List (ℕ × ℕ)
add_missing none k p ms = ms ++ (k, p) ∷ []
add_missing (some q) k p ms = ms

unfoldable pub insert : ℕ → ℕ → List (ℕ × ℕ) → List (ℕ × ℕ)
unfolding add_missing
insert k p ms = add_missing (find k ms) k p ms

unfoldable pub erase : ℕ → List (ℕ × ℕ) → List (ℕ × ℕ)
erase k [] = []
erase k ((j, p) ∷ rest) = if j == k then erase k rest else (j, p) ∷ erase k rest

-- `m_channels[name] = cha`.
unfoldable pub find_name : List ℕ → List (List ℕ × ℕ) → Option ℕ
find_name n [] = none
find_name n ((m, p) ∷ rest) = if bytes_eq m n then some p else find_name n rest

unfoldable pub assign_name : List ℕ → ℕ → List (List ℕ × ℕ) → List (List ℕ × ℕ)
assign_name n p [] = (n, p) ∷ []
assign_name n p ((m, q) ∷ rest) =
    if bytes_eq m n then (m, p) ∷ rest else (m, q) ∷ assign_name n p rest

-- SendPacket and _SendPacket: a session that has lost its own pointer closes its socket.
unfoldable pub send_packet : Message → ℕ → World → World
send_packet m p w =
    let s = w.sessions p in
    if not s.connected
    then w
    else if not s.has_this
    then set_session p (record s { connected = false }) w
    else record w {
      sessions = put_at p (record s { send_queue = add m s.send_queue }) w.sessions;
      network_queue = w.network_queue ++ p ∷ [];
    }

-- Session::setChannel.
unfoldable pub set_channel : ℕ → Option ℕ → World → World
set_channel p c w = set_session p (record (w.sessions p) { channel = c }) w
