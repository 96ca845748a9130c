-- ===== src/World/Handlers.antt =====
-- src/server/session/session.cpp: the handlers of a session `p` for chat and channels, JoinDefaultChannel
-- of channel-manager.cpp, and FindSession of session-manager.cpp. Session::Update catches whatever a handler throws. An exception
-- is an error of the model, which keeps no state: every exception that a client can provoke, by a
-- message that is not base64, comes before the first change.
use project_secure_chat.Base.{
  ℕ, Bool, Option, none, some, List, [], ◌∷◌, ◌++◌, if◌then◌else◌, take, codes,
}
use project_secure_chat.Base.Result.{Result, ok, ◌>>=◌}
use project_secure_chat.Buffer.Defs.{ByteBuffer, read_text, bytes_eq}
use project_secure_chat.Buffer.Text.{before_zero}
use project_secure_chat.Opcode.Defs.{smsg_message, smsg_whisp}
use project_secure_chat.Xml.Defs.{TinyXml, set_username_to_message}
use project_secure_chat.World.Heap.{World, Message, text_field, send_packet, set_channel}
use project_secure_chat.World.Channel.{
  send_to_all_but_one, can_enter, add_session, remove_session, find_channel, create_channel,
  new_channel, send_sys_message,
}

-- PSendSysMessage: a buffer of 2048 bytes, the last one for the zero.
abbrev pub formatted : List ℕ → List ℕ → List ℕ
formatted prefix argument = take 2047 (prefix ++ before_zero argument)

unfoldable pub handle_ping : ℕ → World → World
handle_ping p w = send_sys_message (codes "Pong") p w

-- FindSession by a user's name: the first session of that name.
unfoldable pub find_session : List ℕ → List (ℕ × ℕ) → World → Option ℕ
find_session name [] w = none
find_session name ((k, p) ∷ rest) w =
    if bytes_eq (w.sessions p).username name then some p else find_session name rest w

text_message : ℕ → List ℕ → Message
text_message opcode t = record { opcode = opcode; fields = text_field t ∷ [] }

-- What HandleMessage does in a channel.
unfoldable pub broadcast : TinyXml → Bool → ℕ → ℕ → ByteBuffer → World → Result World
unfolding text_message
broadcast x be p c packet w = do
  (data', rest) ← read_text be packet
  text ← set_username_to_message x data' (w.sessions p).username
  ok (
      send_to_all_but_one (text_message smsg_message text) (w.sessions p).id (w.channels c).members
        w)

message_in : TinyXml → Bool → ℕ → Option ℕ → ByteBuffer → World → Result World
message_in x be p none packet w =
    ok (send_sys_message (codes "You have to join or create a channel") p w)
message_in x be p (some c) packet w = broadcast x be p c packet w

unfoldable pub handle_message : TinyXml → Bool → ℕ → ByteBuffer → World → Result World
unfolding message_in
handle_message x be p packet w = message_in x be p (w.sessions p).channel packet w

whisp_to : TinyXml → Bool → ℕ → Option ℕ → ByteBuffer → World → Result World
unfolding text_message
whisp_to x be p none packet w = ok (send_sys_message (codes "User not found") p w)
whisp_to x be p (some q) packet w = do
  (msg, rest) ← read_text be packet
  text ← set_username_to_message x msg (w.sessions p).username
  ok (send_packet (text_message smsg_whisp text) q w)

unfoldable pub handle_whisp : TinyXml → Bool → ℕ → ByteBuffer → World → Result World
unfolding whisp_to
handle_whisp x be p packet w = do
  (nick, rest) ← read_text be packet
  whisp_to x be p (find_session nick w.session_map w) rest w

-- `if (IsInChannel())`: out of the channel `c` that the session is in.
unfoldable pub leave_current : TinyXml → ℕ → Option ℕ → World → Result World
leave_current x p none w = ok w
leave_current x p (some c) w = do
  w' ← remove_session x c (w.sessions p).id w
  ok (set_channel p none w')

-- The end of both handlers: into the channel `c`.
unfoldable pub enter : TinyXml → ℕ → ℕ → List ℕ → World → Result World
enter x p c notice w = do
  w1 ← leave_current x p (w.sessions p).channel w
  w2 ← add_session x c p w1
  ok (send_sys_message notice p (set_channel p (some c) w2))

join_found : TinyXml → ℕ → List ℕ → List ℕ → Option ℕ → World → Result World
join_found x p name pass none w = ok (send_sys_message (codes "Channel does not exists") p w)
join_found x p name pass (some c) w =
    if can_enter pass (w.channels c)
    then enter x p c (formatted (codes "Joined channel: ") name) w
    else ok (send_sys_message (codes "Wrong password") p w)

unfoldable pub handle_join_channel : TinyXml → Bool → ℕ → ByteBuffer → World → Result World
unfolding join_found
handle_join_channel x be p packet w = do
  (c_name, packet1) ← read_text be packet
  (pass, packet2) ← read_text be packet1
  join_found x p c_name pass (find_channel c_name w) w

enter_created : TinyXml → ℕ → List ℕ → Option ℕ × World → Result World
enter_created x p name (none, w) = ok (send_sys_message (codes "Channel already exists") p w)
enter_created x p name (some c, w) = enter x p c (formatted (codes "Creating new channel: ") name) w

unfoldable pub handle_create_channel : TinyXml → Bool → ℕ → ByteBuffer → World → Result World
unfolding enter_created
handle_create_channel x be p packet w = do
  (c_name, packet1) ← read_text be packet
  (pass, packet2) ← read_text be packet1
  enter_created x p c_name (create_channel c_name pass w)

leave_notified : TinyXml → ℕ → Option ℕ → World → Result World
leave_notified x p none w = ok (send_sys_message (codes "You aren't in any channel") p w)
leave_notified x p (some c) w = do
  w' ← leave_current x p (some c) w
  ok (send_sys_message (codes "Channel left") p w')

unfoldable pub handle_leave_channel : TinyXml → ℕ → World → Result World
unfolding leave_notified
handle_leave_channel x p w = leave_notified x p (w.sessions p).channel w

-- JoinDefaultChannel; `pass` is SHA256_digest of the empty text.
default_channel : List ℕ → Option ℕ → World → ℕ × World
default_channel pass none w = (w.channel_count, new_channel (codes "Default") pass w)
default_channel pass (some c) w = (c, w)

unfoldable pub join_default_channel : TinyXml → List ℕ → ℕ → World → Result World
unfolding default_channel
join_default_channel x pass p w =
    let (c, w1) = default_channel pass (find_channel (codes "Default") w) w in
    do
      w2 ← add_session x c p w1
      ok (send_sys_message (codes "Default channel joined") p (set_channel p (some c) w2))
