-- ===== src/Commands/Table.antt =====
-- src/client/command/chat-handler.cpp: the tables of commands, hasStringAbbr, and the search for a row
-- in ExecuteCommandInTable. A text is the characters before its zero. isAvailable is true of every row.
use project_secure_chat.Base.{
  ℕ, ◌+◌, Bool, true, false, not, ◌&&◌, ◌||◌, Option, none, some, List, [], ◌∷◌, ltb, leb, ◌==◌,
  if◌then◌else◌, length, codes,
}

-- tolower of the C locale.
unfoldable pub tolower : ℕ → ℕ
tolower c = if leb 65 c && leb c 90 then c + 32 else c

pub data CommandHandler : Type 0 where
  join_command create_command leave_command info_command list_command kick_command ping_command
        commands_command help_command whisp_command :
      CommandHandler

-- The three static tables.
pub data TableName : Type 0 where
  command_table channel_command_table utility_command_table : TableName

pub record ChatCommand : Type 0 where
  pub name : List ℕ
  pub handler : Option CommandHandler
  pub help : List ℕ
  pub child_commands : Option TableName

abbrev leaf : List ℕ → CommandHandler → List ℕ → ChatCommand
leaf n h text = record { name = n; handler = some h; help = text; child_commands = none }

abbrev group : List ℕ → TableName → ChatCommand
group n t = record { name = n; handler = none; help = []; child_commands = some t }

unfoldable pub table_rows : TableName → List ChatCommand
table_rows channel_command_table =
    leaf (codes "join") join_command (
      codes
        "Syntax: \\channel join [$name] [$pass]  Join channel $name with optional password $pass.")
    ∷ leaf (codes "create") create_command (
        codes
          "Syntax: \\channel create [$name] [$pass]  Create channel $name with optional password $pass.")
    ∷ leaf (codes "leave") leave_command (
        codes
          "Syntax: \\channel list  See the list of channels with number of user and if channels have a password.")
    ∷ leaf (codes "info") info_command []
    ∷ leaf (codes "list") list_command []
    ∷ leaf (codes "kick") kick_command []
    ∷ []
table_rows utility_command_table = []
table_rows command_table =
    group (codes "channel") channel_command_table
    ∷ group (codes "utility") utility_command_table
    ∷ leaf (codes "ping") ping_command []
    ∷ leaf (codes "commands") commands_command []
    ∷ leaf (codes "help") help_command
        (codes "Syntax: \\help [$command]  Display usage instructions for the given $command.")
    ∷ leaf (codes "whisp") whisp_command []
    ∷ []

-- The loop of hasStringAbbr.
unfoldable pub abbr_loop : List ℕ → List ℕ → Bool
abbr_loop name [] = true
abbr_loop [] (c ∷ cs) = false
abbr_loop (n ∷ ns) (c ∷ cs) = tolower n == tolower c && abbr_loop ns cs

unfoldable pub has_string_abbr : List ℕ → List ℕ → Bool
has_string_abbr [] part = true
has_string_abbr (n ∷ ns) [] = false
has_string_abbr (n ∷ ns) (c ∷ cs) = abbr_loop (n ∷ ns) (c ∷ cs)

-- strcmp(a, b) == 0.
unfoldable pub same_text : List ℕ → List ℕ → Bool
same_text [] [] = true
same_text [] (b ∷ bs) = false
same_text (a ∷ as') [] = false
same_text (a ∷ as') (b ∷ bs) = a == b && same_text as' bs

-- Whether a row of the table has exactly this name.
unfoldable pub has_exact : List ChatCommand → List ℕ → Bool
has_exact [] cmd = false
has_exact (r ∷ rs) cmd = has_string_abbr r.name cmd && same_text r.name cmd || has_exact rs cmd

abbrev pub usable : ChatCommand → Bool
usable r = elim r.child_commands [
  | some t ↦ true
  | none ↦ elim r.handler [ none ↦ false | some h ↦ true ]
]

-- A row that the command abbreviates is passed over if another row has exactly its name.
abbrev pub row_fits : List ChatCommand → List ℕ → ChatCommand → Bool
row_fits table cmd r =
    has_string_abbr r.name cmd
    && (not (ltb (length cmd) (length r.name) && has_exact table cmd) && usable r)

abbrev pub find_from : List ChatCommand → List ℕ → List ChatCommand → Option ChatCommand
find_from table cmd [] = none
find_from table cmd (r ∷ rs) = if row_fits table cmd r then some r else find_from table cmd rs

-- The row that the loop of ExecuteCommandInTable comes to.
unfoldable pub find_command : List ChatCommand → List ℕ → Option ChatCommand
find_command table cmd = find_from table cmd table
