-- ===== src/World/Channel.antt =====
-- src/server/channel/channel.cpp, channel-manager.cpp: members, what is sent to them, and the
-- channels by name. A channel's mutex is held from the beginning to the end of a use of its map, so
-- that each call is one step.
use project_secure_chat.Base.{
  ℕ, suc, ◌%◌, ◌^◌, Bool, ◌||◌, Option, none, some, List, [], ◌∷◌, ltb, ◌==◌, if◌then◌else◌, length,
  map, codes,
}
use project_secure_chat.Base.Result.{Result, ok, ◌>>=◌}
use project_secure_chat.Buffer.Defs.{bytes_eq}
use project_secure_chat.Buffer.Text.{before_zero}
use project_secure_chat.Opcode.Defs.{
  smsg_join_channel, smsg_leave_channel, smsg_users_channel_list, smsg_system_message,
}
use project_secure_chat.Xml.Defs.{TinyXml, build_update}
use project_secure_chat.World.Heap.{
  World, Channel, Message, text_field, number_field, put_at, set_channel_at, find, insert, erase,
  find_name, assign_name, send_packet,
}

-- SendToAll
unfoldable pub send_to_all : Message → List (ℕ × ℕ) → World → World
send_to_all m [] w = w
send_to_all m ((k, p) ∷ rest) w = send_to_all m rest (send_packet m p w)

-- SendToAllButOne
unfoldable pub send_to_all_but_one : Message → ℕ → List (ℕ × ℕ) → World → World
send_to_all_but_one m id [] w = w
send_to_all_but_one m id ((k, p) ∷ rest) w =
    send_to_all_but_one m id rest (if (w.sessions p).id == id then w else send_packet m p w)

send_to_found : Message → Option ℕ → World → World
send_to_found m none w = w
send_to_found m (some p) w = send_packet m p w

-- SendToOne
unfoldable pub send_to_one : Message → ℕ → ℕ → World → World
unfolding send_to_found
send_to_one m c id w = send_to_found m (find id (w.channels c).members) w

-- CanEnterSession
unfoldable pub can_enter : List ℕ → Channel → Bool
can_enter pass ch = bytes_eq pass ch.pass

-- DelayedUpdate: whether the channel is kept.
unfoldable pub delayed_update : Channel → Bool
delayed_update ch = ltb 0 (length ch.members) || bytes_eq ch.name (codes "Default")

-- SendUsersList
unfoldable pub users_list : World → ℕ → Message
users_list w c =
    let ms = (w.channels c).members in
    record {
      opcode = smsg_users_channel_list;
      fields =
          number_field (length ms % 2 ^ 32) ∷ map (λ m. text_field (w.sessions m.1).username) ms;
    }

abbrev pub set_members : ℕ → List (ℕ × ℕ) → World → World
set_members c ms w = set_channel_at c (record (w.channels c) { members = ms }) w

-- Channel::AddSession(ses).
unfoldable pub add_session : TinyXml → ℕ → ℕ → World → Result World
add_session x c p w =
    let s = w.sessions p in
    let w1 = set_members c (insert s.id p (w.channels c).members) w in
    do
      update ← build_update x (before_zero s.username) (codes "join")
      let joined : Message = record { opcode = smsg_join_channel; fields = text_field update ∷ [] }
      let w2 = send_to_all_but_one joined s.id (w1.channels c).members w1
      ok (send_packet (users_list w2 c) p w2)

abbrev pub empty_list : Message
empty_list = record { opcode = smsg_users_channel_list; fields = number_field 0 ∷ [] }

remove_found : TinyXml → ℕ → ℕ → Option ℕ → World → Result World
remove_found x c id none w = ok w
remove_found x c id (some p) w =
    let s = w.sessions p in
    let w1 = set_members c (erase id (w.channels c).members) w in
    do
      update ← build_update x (before_zero s.username) (codes "leave")
      let left : Message = record { opcode = smsg_leave_channel; fields = text_field update ∷ [] }
      ok (send_packet empty_list p (send_to_all_but_one left s.id (w1.channels c).members w1))

-- Channel::RemoveSession(id). Its result is used nowhere.
unfoldable pub remove_session : TinyXml → ℕ → ℕ → World → Result World
unfolding remove_found
remove_session x c id w = remove_found x c id (find id (w.channels c).members) w

-- ChannelManager::FindChannel
unfoldable pub find_channel : List ℕ → World → Option ℕ
find_channel name w = if bytes_eq name [] then none else find_name name w.names

-- `new Channel(name, pass)` and its entry in the map.
abbrev pub new_channel : List ℕ → List ℕ → World → World
new_channel name pass w = record w {
  channels = put_at w.channel_count (record { name = name; pass = pass; members = [] }) w.channels;
  channel_count = suc w.channel_count;
  names = assign_name name w.channel_count w.names;
}

create_missing : List ℕ → List ℕ → Option ℕ → World → Option ℕ × World
create_missing name pass none w = (some w.channel_count, new_channel name pass w)
create_missing name pass (some c) w = (none, w)

-- ChannelManager::CreateChannel
unfoldable pub create_channel : List ℕ → List ℕ → World → Option ℕ × World
unfolding create_missing
create_channel name pass w =
    if bytes_eq name (codes "Default")
    then (none, w)
    else create_missing name pass (find_channel name w) w

-- Session::SendSysMessage
unfoldable pub send_sys_message : List ℕ → ℕ → World → World
send_sys_message str p w =
    send_packet (record { opcode = smsg_system_message; fields = text_field str ∷ [] }) p w
