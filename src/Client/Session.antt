-- ===== src/Client/Session.antt =====
-- src/client/session/session.cpp: what a client does with the packets of the server, but for the login
-- and the keys. A text in a packet is read by its pointer, as far as the first zero; where there is none,
-- the read leaves the block. An exception comes before the first change.
use project_secure_chat.Base.{ℕ, zero, suc, Bool, List, [], ◌++◌, codes, decimal}
use project_secure_chat.Base.Result.{Result, ok, ◌>>=◌}
use project_secure_chat.Buffer.Words.{w32}
use project_secure_chat.Buffer.Defs.{ByteBuffer, read, read_text}
use project_secure_chat.Buffer.Text.{c_string}
use project_secure_chat.Xml.Defs.{TinyXml, read_message, read_update}
use project_secure_chat.Client.Screen.{Client, Printf, send_to_gui, send_format_to_gui}

-- `now` is the time of day, for the user interface.
module _ (x : TinyXml) (be : Bool) (now : List ℕ) where
  unfoldable pub handle_message : ByteBuffer → Client → Result Client
  handle_message packet c = do
    str ← c_string packet
    (user, msg) ← read_message x str ([], [])
    ok (send_to_gui now user b'm' msg c)

  unfoldable pub handle_whisp : ByteBuffer → Client → Result Client
  handle_whisp packet c = do
    str ← c_string packet
    (user, msg) ← read_message x str ([], [])
    ok (send_to_gui now user b'w' msg c)

  unfoldable pub handle_server_message : Printf → ByteBuffer → Client → Result Client
  handle_server_message vasprintf packet c = do
    str ← c_string packet
    send_format_to_gui vasprintf now [] b'e' str c

  unfoldable pub handle_join_channel : ByteBuffer → Client → Result Client
  handle_join_channel packet c = do
    str ← c_string packet
    (name, status) ← read_update x str ([], [])
    ok (send_to_gui now name b'j' (codes "joined the channel") c)

  unfoldable pub handle_leave_channel : ByteBuffer → Client → Result Client
  handle_leave_channel packet c = do
    str ← c_string packet
    (name, status) ← read_update x str ([], [])
    ok (send_to_gui now name b'l' (codes "left the channel") c)

  unfoldable pub handle_queue_pos : ByteBuffer → Client → Result Client
  handle_queue_pos packet c = do
    (pos, rest) ← read be w32 packet
    ok (send_to_gui now [] b'e' (codes "Queue position is " ++ (decimal pos ++ codes "\n")) c)

  unfoldable pub show_names : ℕ → ByteBuffer → Client → Result Client
  show_names zero b c = ok c
  show_names (suc n) b c = do
    (name, b') ← read_text be b
    show_names n b' (send_to_gui now name b'J' [] c)

  -- HandleChannelUsersList: `size` rounds.
  unfoldable pub handle_channel_users_list : ByteBuffer → Client → Result Client
  handle_channel_users_list packet c = do
    (size, b) ← read be w32 packet
    show_names size b (send_to_gui now [] b'L' [] c)
