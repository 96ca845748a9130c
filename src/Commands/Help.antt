-- ===== src/Commands/Help.antt =====
-- src/client/command/chat-handler.cpp: ShowHelpForCommand, ShowHelpForSubCommands and the handlers of the
-- commands "help" and "commands". The result has the texts that SendSysMessage gets. `rest` is what strtok
-- has left. The fuel counts the tables that are gone into.
use project_secure_chat.Base.{
  ℕ, zero, suc, Bool, true, false, not, ◌&&◌, ◌||◌, Option, none, some, List, [], ◌∷◌, ◌++◌,
  if◌then◌else◌, codes,
}
use project_secure_chat.Commands.Table.{
  ChatCommand, TableName, command_table, channel_command_table, utility_command_table, table_rows,
  has_string_abbr,
}
use project_secure_chat.Commands.Packets.{strtok}

abbrev pub no_text : List ℕ → Bool
no_text [] = true
no_text (c ∷ cs) = false

has_children : ChatCommand → Bool
has_children r = elim r.child_commands [ none ↦ false | some t ↦ true ]

-- The list that ShowHelpForSubCommands builds.
unfoldable pub row_list : List ChatCommand → List ℕ → List ℕ
unfolding has_children
row_list [] subcmd = []
row_list (r ∷ rows) subcmd =
    let more = row_list rows subcmd in
    if not (no_text subcmd) && not (has_string_abbr r.name subcmd)
    then more
    else codes "\n    " ++ (r.name ++ ((if has_children r then codes " ..." else []) ++ more))

unfoldable pub listed : TableName → List ℕ → List ℕ → Bool × List (List ℕ)
listed table cmd [] = (false, [])
listed command_table cmd (c ∷ cs) = (true, codes "Commands available to you:" ∷ (c ∷ cs) ∷ [])
listed channel_command_table cmd (c ∷ cs) =
    (true, (codes "Command " ++ (cmd ++ (codes " have subcommands:" ++ (c ∷ cs)))) ∷ [])
listed utility_command_table cmd (c ∷ cs) =
    (true, (codes "Command " ++ (cmd ++ (codes " have subcommands:" ++ (c ∷ cs)))) ∷ [])

-- ShowHelpForSubCommands
unfoldable pub show_sub_commands : TableName → List ℕ → List ℕ → Bool × List (List ℕ)
unfolding listed
show_sub_commands table cmd subcmd = listed table cmd (row_list (table_rows table) subcmd)

-- The first row that the loop does not pass over.
unfoldable pub help_row : List ChatCommand → List ℕ → Option ChatCommand
help_row [] cmd = none
help_row (r ∷ rows) cmd =
    if (if no_text cmd then no_text r.name else has_string_abbr r.name cmd)
    then some r
    else help_row rows cmd

unfoldable pub own_help : ChatCommand → List (List ℕ)
own_help r = if no_text r.help then [] else r.help ∷ []

-- The end of the loop's body: the help of the row, and the list of its children.
unfoldable pub row_help : ChatCommand → List ℕ → Bool × List (List ℕ)
unfolding own_help
row_help r subcmd = elim r.child_commands [
  | none ↦ (not (no_text r.help), own_help r)
  | some t ↦
      let sub = show_sub_commands t r.name subcmd in
      (sub.0 || not (no_text r.help), own_help r ++ sub.1)
]

unfoldable pub word_of : Option (List ℕ × List ℕ) → List ℕ
word_of none = []
word_of (some (word, rest)) = word

unfoldable pub behind : Option (List ℕ × List ℕ) → List ℕ
behind none = []
behind (some (word, rest)) = rest

unfoldable pub tried_child :
    Option (Bool × List (List ℕ)) → Bool × List (List ℕ) → Option (Bool × List (List ℕ))
tried_child none own = none
tried_child (some (true, told)) own = some (true, told)
tried_child (some (false, told)) own = some (own.0, told ++ own.1)

-- ShowHelpForCommand; for an empty command strtok is not asked.
unfoldable pub show_help : ℕ → TableName → List ℕ → List ℕ → Option (Bool × List (List ℕ))
unfolding word_of behind tried_child
show_help zero table cmd rest = none
show_help (suc fuel) table cmd rest = elim (help_row (table_rows table) cmd) [
  | none ↦ some (show_sub_commands table [] cmd)
  | some r ↦
      let next = if no_text cmd then none else strtok rest in
      let own = row_help r (word_of next) in
      elim r.child_commands [
        | none ↦ some own
        | some t ↦
            if no_text (word_of next)
            then some own
            else tried_child (show_help fuel t (word_of next) (behind next)) own
      ]
]

unfoldable pub answered : Option (Bool × List (List ℕ)) → Option (List (List ℕ))
answered none = none
answered (some (true, told)) = some told
answered (some (false, told)) = some (told ++ codes "There is no help for that command" ∷ [])

-- HandleCommandsCommand
unfoldable pub handle_commands : Option (List (List ℕ))
handle_commands = elim (show_help 2 command_table [] []) [ none ↦ none | some r ↦ some r.1 ]

-- HandleHelpCommand
unfoldable pub handle_help : List ℕ → Option (List (List ℕ))
unfolding answered
handle_help args = elim (strtok args) [
  | none ↦ elim (show_help 2 command_table (codes "help") []) [
    | none ↦ none
    | some r ↦ elim handle_commands [ none ↦ none | some more ↦ some (r.1 ++ more) ]
  ]
  | some (cmd, rest) ↦ answered (show_help 2 command_table cmd rest)
]
