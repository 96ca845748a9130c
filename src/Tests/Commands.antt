-- ===== src/Tests/Commands.antt =====
-- Commands that a user types.
use project_secure_chat.Base.{
  ℕ, ◌<◌, length, ◌≡◌, refl, Bool, true, some, List, [], ◌∷◌, ◌++◌, replicate, codes, arith,
}
use project_secure_chat.Base.Result.{Result, ok, err, assertion}
use project_secure_chat.Commands.Table.{
  CommandHandler, join_command, table_rows, tolower, has_exact, find_command, has_string_abbr,
  abbr_loop, same_text,
}
use project_secure_chat.Commands.Parse.{
  Action, calls_handler, parse_commands, execute_command_in_table, first_word, rest_of,
}
use project_secure_chat.Buffer.Defs.{ByteBuffer, read_text}
use project_secure_chat.Crypto.Toy.{toy}
use project_secure_chat.Opcode.Defs.{cmsg_join_channel}
use project_secure_chat.Packet.Defs.{Packet}
use project_secure_chat.Commands.Packets.{channel_packet, sha256_digest}
use project_secure_chat.Commands.Credentials.{credentials_lem}
use project_secure_chat.Commands.Depth.{parse_total}
use project_secure_chat.Commands.Help.{handle_help}
use project_secure_chat.Commands.Answer.{help_lem}

abbrev fine : CommandHandler → List ℕ → Bool
fine h args = true

-- An abbreviation of both words.
abbreviated :
    parse_commands fine true (codes ".ch jo Den pw")
    ≡ some (ok (1, calls_handler join_command (codes "Den pw") ∷ []))
unfolding parse_commands execute_command_in_table find_command table_rows has_exact has_string_abbr
    abbr_loop same_text tolower first_word rest_of
abbreviated = refl

parse_total_example :
    (result : Result (ℕ × List Action)) × (parse_commands fine true (codes ".help") ≡ some result)
    × (result ≡ err assertion → codes ".help" ≡ [])
parse_total_example = parse_total fine true (codes ".help")

abbrev secret : List ℕ
secret = replicate 32 65

credentials_lem_example :
    (p : Packet) × (b1 : ByteBuffer) × (b2 : ByteBuffer) × (channel_packet toy cmsg_join_channel
        (codes "Den" ++ 32 ∷ secret)
      ≡ ok (some p))
    × (p.opcode ≡ cmsg_join_channel)
    × (read_text true p.buffer ≡ ok (codes "Den", b1))
    × (read_text true b1 ≡ ok (sha256_digest toy secret, b2))
credentials_lem_example =
    credentials_lem toy true cmsg_join_channel 68 (codes "en") 65 (replicate 31 65) (ground arith)
      (ground arith) (ground arith) (omega arith) (omega arith)

help_lem_example :
    (told : List (List ℕ)) × (handle_help (codes "chan jo") ≡ some told) × (0 < length told)
help_lem_example = help_lem (codes "chan jo")
