-- ===== src/World/Notices.antt =====
-- src/server/session/session.cpp: HandleServerSide, HandleListChannel and SendWaitQueue; getChannelList
-- and RemoveChannel of src/server/channel/channel-manager.cpp, SetName of channel.cpp.
use project_secure_chat.Base.{
  ℕ, ◌%◌, ◌^◌, List, [], ◌∷◌, ◌++◌, if◌then◌else◌, length, codes, decimal,
}
use project_secure_chat.Buffer.Defs.{bytes_eq}
use project_secure_chat.Buffer.Text.{before_zero}
use project_secure_chat.Opcode.Defs.{msg_null_action, smsg_queue_position}
use project_secure_chat.World.Heap.{World, Channel, number_field, set_channel_at, send_packet}
use project_secure_chat.World.Channel.{can_enter, send_sys_message, send_to_all}

-- `pass` is SHA256_digest of the empty text.
unfoldable pub channel_line : List ℕ → Channel → List ℕ
channel_line pass ch =
    codes " "
    ++ (ch.name
        ++ (codes " ("
            ++ (decimal (length ch.members)
                ++ (codes ") " ++ ((if can_enter pass ch then [] else codes "*") ++ codes "\n")))))

unfoldable pub channel_lines : List ℕ → List (List ℕ × ℕ) → World → List ℕ
channel_lines pass [] w = []
channel_lines pass ((n, c) ∷ rest) w = channel_line pass (w.channels c) ++ channel_lines pass rest w

-- getChannelList, for an empty string.
unfoldable pub get_channel_list : List ℕ → World → List ℕ
get_channel_list pass w = codes "Channel list:\n" ++ channel_lines pass w.names w

unfoldable pub handle_list_channel : List ℕ → ℕ → World → World
handle_list_channel pass p w = send_sys_message (before_zero (get_channel_list pass w)) p w

-- Its body is empty.
unfoldable pub handle_server_side : ℕ → World → World
handle_server_side p w = w

unfoldable pub send_wait_queue : ℕ → ℕ → World → World
send_wait_queue position p w =
    send_packet
      (record { opcode = smsg_queue_position; fields = number_field (position % 2 ^ 32) ∷ [] }) p w

-- MakeChannelChangeName writes nothing.
unfoldable pub set_name : List ℕ → ℕ → World → World
set_name c_name c w =
    let w1 = set_channel_at c (record (w.channels c) { name = c_name }) w in
    send_to_all (record { opcode = msg_null_action; fields = [] }) (w1.channels c).members w1

erase_name : List ℕ → List (List ℕ × ℕ) → List (List ℕ × ℕ)
erase_name n [] = []
erase_name n ((m, c) ∷ rest) = if bytes_eq m n then rest else (m, c) ∷ erase_name n rest

-- RemoveChannel: the channel's entry in the map.
unfoldable pub remove_channel : List ℕ → World → World
unfolding erase_name
remove_channel c_name w = record w { names = erase_name c_name w.names }
