-- ===== src/Commands/Packets.antt =====
-- src/client/command/chat-handler.cpp: the packets that the handlers of the commands send, and
-- SHA256_digest of src/shared/crypto/crypto.cpp. `none` stands for a handler that returns false.
use project_secure_chat.Base.{
  ℕ, ◌+◌, ◌/◌, ◌%◌, Option, none, some, List, [], ◌∷◌, ltb, ◌==◌, if◌then◌else◌,
}
use project_secure_chat.Base.Result.{Result, ok, ◌>>=◌}
use project_secure_chat.Buffer.Defs.{empty, append_text}
use project_secure_chat.Crypto.OpenSsl.{OpenSsl}
use project_secure_chat.Opcode.Defs.{
  cmsg_join_channel, cmsg_create_channel, cmsg_leave_channel, cmsg_channel_list, cmsg_ping,
  cmsg_whisp,
}
use project_secure_chat.Packet.Defs.{Packet, new_packet}
use project_secure_chat.Xml.Defs.{TinyXml, build_message}
use project_secure_chat.Commands.Table.{
  CommandHandler, join_command, create_command, leave_command, info_command, list_command,
  kick_command, ping_command, commands_command, help_command, whisp_command,
}
use project_secure_chat.Commands.Parse.{first_word}

abbrev pub hex_digit : ℕ → ℕ
hex_digit v = if ltb v 10 then 48 + v else 87 + v

abbrev pub hex : List ℕ → List ℕ
hex [] = []
hex (b ∷ bs) = hex_digit (b / 16) ∷ hex_digit (b % 16) ∷ hex bs

-- SHA256_digest
unfoldable pub sha256_digest : OpenSsl → List ℕ → List ℕ
sha256_digest o text = hex (o.sha256 text)

unfoldable pub skip_delimiters : List ℕ → List ℕ
skip_delimiters [] = []
skip_delimiters (c ∷ cs) = if c == 32 then skip_delimiters cs else c ∷ cs

-- Where strtok goes on after a token: behind the space that ended it.
unfoldable pub after_word : List ℕ → List ℕ
after_word [] = []
after_word (c ∷ cs) = if c == 32 then cs else after_word cs

token : List ℕ → Option (List ℕ × List ℕ)
token [] = none
token (c ∷ cs) = some (first_word (c ∷ cs), after_word (c ∷ cs))

-- strtok(text, " "): the next token, and what is left.
unfoldable pub strtok : List ℕ → Option (List ℕ × List ℕ)
unfolding token
strtok text = token (skip_delimiters text)

password_of : Option (List ℕ × List ℕ) → List ℕ
password_of none = []
password_of (some (word, rest)) = word

credentials : OpenSsl → ℕ → List ℕ → Option (List ℕ × List ℕ) → Result (Option Packet)
credentials o opcode name second = do
  b1 ← append_text name empty
  b2 ← append_text (sha256_digest o (password_of second)) b1
  ok (some (record (new_packet opcode) { buffer = b2 }))

with_name : OpenSsl → ℕ → Option (List ℕ × List ℕ) → Result (Option Packet)
with_name o opcode none = ok none
with_name o opcode (some (name, rest)) = credentials o opcode name (strtok rest)

-- HandleJoinChannelCommand and HandleCreateChannelCommand
unfoldable pub channel_packet : OpenSsl → ℕ → List ℕ → Result (Option Packet)
unfolding password_of credentials with_name
channel_packet o opcode args = with_name o opcode (strtok args)

-- HandleWhispCommand; strtok(NULL, "\\0") gives all that is left.
whisp_text : TinyXml → List ℕ → List ℕ → List ℕ → Result (Option Packet)
whisp_text x username nick [] = ok none
whisp_text x username nick (c ∷ cs) = do
  message ← build_message x (some username) (c ∷ cs)
  b1 ← append_text nick empty
  b2 ← append_text message b1
  ok (some (record (new_packet cmsg_whisp) { buffer = b2 }))

unfoldable pub whisp_packet : TinyXml → List ℕ → List ℕ → Result (Option Packet)
unfolding whisp_text
whisp_packet x username args = elim (strtok args) [
  | none ↦ ok none
  | some (nick, rest) ↦ whisp_text x username nick rest
]

-- The packet of a command, if it sends one.
unfoldable pub command_packet :
    OpenSsl → TinyXml → List ℕ → CommandHandler → List ℕ → Result (Option Packet)
command_packet o x username join_command args = channel_packet o cmsg_join_channel args
command_packet o x username create_command args = channel_packet o cmsg_create_channel args
command_packet o x username leave_command args = ok (some (new_packet cmsg_leave_channel))
command_packet o x username list_command args = ok (some (new_packet cmsg_channel_list))
command_packet o x username ping_command args = ok (some (new_packet cmsg_ping))
command_packet o x username whisp_command args = whisp_packet x username args
command_packet o x username info_command args = ok none
command_packet o x username kick_command args = ok none
command_packet o x username commands_command args = ok none
command_packet o x username help_command args = ok none
