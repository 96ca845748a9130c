-- ===== src/Commands/Parse.antt =====
-- src/client/command/chat-handler.cpp: ParseCommands and ExecuteCommandInTable. What they do is noted
-- as a list; what a handler returns is an argument, and no handler of the client sets SentErrorMessage.
-- The fuel of ExecuteCommandInTable counts the tables that it goes into, of which there are two at most.
use project_secure_chat.Base.{
  ℕ, zero, suc, Bool, true, false, not, ◌&&◌, Option, none, some, List, [], ◌∷◌, ◌++◌, ◌==◌,
  if◌then◌else◌,
}
use project_secure_chat.Base.Result.{Result, ok, err, assertion}
use project_secure_chat.Commands.Table.{
  ChatCommand, CommandHandler, TableName, command_table, table_rows, find_command,
}

pub data ChatError : Type 0 where
  lang_cmd_syntax lang_no_cmd lang_no_subcmd : ChatError

pub data Action : Type 0 where
  calls_handler : CommandHandler → List ℕ → Action
  sends_error : ChatError → Action
  sends_help : List ℕ → Action
  shows_help : TableName → List ℕ → Action

-- What stands before the first space.
unfoldable pub first_word : List ℕ → List ℕ
first_word [] = []
first_word (c ∷ cs) = if c == 32 then [] else c ∷ first_word cs

skip_spaces : List ℕ → List ℕ
skip_spaces [] = []
skip_spaces (c ∷ cs) = if c == 32 then skip_spaces cs else c ∷ cs

-- What stands behind it and the spaces.
unfoldable pub rest_of : List ℕ → List ℕ
unfolding skip_spaces
rest_of [] = []
rest_of (c ∷ cs) = if c == 32 then skip_spaces cs else rest_of cs

no_text : List ℕ → Bool
no_text [] = true
no_text (c ∷ cs) = false

-- A handler that returned false did not like the text.
failed : ChatCommand → List Action
failed r = if no_text r.help then sends_error lang_cmd_syntax ∷ [] else sends_help r.help ∷ []

run_handler :
    (CommandHandler → List ℕ → Bool)
    → ChatCommand
    → Option CommandHandler
    → List ℕ
    → List ℕ
    → Bool × List Action
run_handler succeeds r none args text = (false, [])
run_handler succeeds r (some h) args text =
    let given = if no_text r.name then text else args in
    (true, calls_handler h given ∷ (if succeeds h given then [] else failed r))

-- The child table did not have the subcommand.
missed : TableName → List ℕ → Bool × List Action → Bool × List Action
missed t args (true, done) = (true, done)
missed t args (false, done) = (
  true,
  done
      ++ sends_error (if no_text args then lang_cmd_syntax else lang_no_subcmd)
        ∷ shows_help t args
        ∷ [],
)

-- ExecuteCommandInTable
unfoldable pub execute_command_in_table :
    (CommandHandler → List ℕ → Bool) → ℕ → TableName → List ℕ → Option (Bool × List Action)
unfolding no_text failed run_handler missed
execute_command_in_table succeeds zero table text = none
execute_command_in_table succeeds (suc fuel) table text =
    let args = rest_of text in
    elim (find_command (table_rows table) (first_word text)) [
      | none ↦ some (false, [])
      | some r ↦ elim r.child_commands [
        | none ↦ some (run_handler succeeds r r.handler args text)
        | some child ↦ elim (execute_command_in_table succeeds fuel child args) [
          | none ↦ none
          | some result ↦ some (missed child args result)
        ]
      ]
    ]

abbrev pub told : Bool × List Action → ℕ × List Action
told (true, done) = (1, done)
told (false, done) = (1, done ++ sends_error lang_no_cmd ∷ [])

abbrev pub cmd_char : ℕ
cmd_char = 46

abbrev pub skip_cmd_char : List ℕ → List ℕ
skip_cmd_char [] = []
skip_cmd_char (c ∷ cs) = if c == cmd_char then cs else c ∷ cs

-- Text that is no command: without the character in front, if there is a session, one character long,
-- or with two such characters in front.
abbrev pub ignored : Bool → List ℕ → Bool
ignored in_session [] = true
ignored in_session (c ∷ []) = true
ignored in_session (c ∷ d ∷ cs) =
    if in_session && not (c == cmd_char) then true else c == cmd_char && d == cmd_char

-- ParseCommands, which asserts that there is text.
unfoldable pub parse_commands :
    (CommandHandler → List ℕ → Bool) → Bool → List ℕ → Option (Result (ℕ × List Action))
parse_commands succeeds in_session [] = some (err assertion)
parse_commands succeeds in_session (c ∷ cs) =
    if ignored in_session (c ∷ cs)
    then some (ok (0, []))
    else elim (execute_command_in_table succeeds 2 command_table (skip_cmd_char (c ∷ cs))) [
      | none ↦ none
      | some result ↦ some (ok (told result))
    ]
