-- ===== src/Commands/Answer.antt =====
-- src/client/command/chat-handler.cpp: the command "help" answers whatever is typed behind it.
use project_secure_chat.Base.{
  ℕ, zero, suc, ◌<◌, ◌≤◌, ◌≡◌, refl, inl, inr, Bool-cases, Option-cases, Bool, true, false, not,
  ◌||◌, Option, none, some, List, [], ◌∷◌, ◌++◌, if◌then◌else◌, codes, length, length-append, arith,
}
use mathlib.Core.Path.{subst}
use mathlib.Core.Option.{some-injective}
use project_secure_chat.Commands.Table.{
  ChatCommand, TableName, command_table, table_rows, has_string_abbr, channel_command_table,
  utility_command_table,
}
use project_secure_chat.Commands.Packets.{strtok}
use project_secure_chat.Commands.Depth.{depth, depth_pos, ChildBelow, AllBelow, rows-AllBelow}
use project_secure_chat.Commands.Help.{
  no_text, listed, show_sub_commands, row_list, help_row, own_help, row_help, word_of, behind,
  tried_child, show_help, answered, handle_commands, handle_help,
}

-- What claims to have shown something has a text.
abbrev Told : Bool × List (List ℕ) → Type 0
Told r = r.0 ≡ true → 0 < length r.1

listed-Told : (t : TableName) (cmd list : List ℕ) → Told (listed t cmd list)
unfolding listed
listed-Told t cmd [] h = absurd (cc h)
listed-Told command_table cmd (c ∷ cs) h = omega arith
listed-Told channel_command_table cmd (c ∷ cs) h = omega arith
listed-Told utility_command_table cmd (c ∷ cs) h = omega arith

sub-Told : (t : TableName) (cmd subcmd : List ℕ) → Told (show_sub_commands t cmd subcmd)
unfolding show_sub_commands
sub-Told t cmd subcmd = listed-Told t cmd (row_list (table_rows t) subcmd)

either-Told :
    (own : List (List ℕ)) (sub : Bool × List (List ℕ)) (help : Bool)
    → (help ≡ true → 0 < length own)
    → Told sub
    → Told (sub.0 || help, own ++ sub.1)
either-Told own (true, told) help l s h = omega (arith, s refl, length-append own told)
either-Told own (false, told) true l s h = omega (arith, l refl, length-append own told)
either-Told own (false, told) false l s h = absurd (cc h)

own_told : (r : ChatCommand) → not (no_text r.help) ≡ true → 0 < length (own_help r)
unfolding own_help
own_told r h = elim (Bool-cases (no_text r.help)) [
  | inl e ↦ let k : false ≡ true = rw e at h in absurd (cc k)
  | inr e ↦ rw (own_help, e) (omega arith)
]

row-Told : (r : ChatCommand) (subcmd : List ℕ) → Told (row_help r subcmd)
unfolding row_help
row-Told r subcmd = elim (Option-cases r.child_commands) [
  | inl f ↦ rw (row_help, f) (own_told r)
  | inr (t, f) ↦
      rw (row_help, f)
        (either-Told (own_help r) (show_sub_commands t r.name subcmd) (not (no_text r.help))
          (own_told r) (sub-Told t r.name subcmd))
]

row-ChildBelow :
    (n : ℕ) (cmd : List ℕ) (rows : List ChatCommand) (r : ChatCommand)
    → AllBelow n rows
    → help_row rows cmd ≡ some r
    → ChildBelow n r.child_commands
unfolding help_row
row-ChildBelow n cmd [] r below f = cc
row-ChildBelow n cmd (r0 ∷ rows) r below f =
    elim (Bool-cases (if no_text cmd then no_text r0.name else has_string_abbr r0.name cmd)) [
      | inl g ↦
          subst (λ (x : ChatCommand). ChildBelow n x.child_commands)
            (some-injective r0 r (rw g at f)) below.0
      | inr g ↦ row-ChildBelow n cmd rows r below.1 (rw g at f)
    ]

abbrev Answers : Option (Bool × List (List ℕ)) → Type 0
Answers o = (r : Bool × List (List ℕ)) × (o ≡ some r) × Told r

tried-Answers :
    (child own : Bool × List (List ℕ))
    → Told child
    → Told own
    → Answers (tried_child (some child) own)
unfolding tried_child
tried-Answers (true, told) own c o = ((true, told), refl, c)
tried-Answers (false, told) own c o =
    ((own.0, told ++ own.1), refl, λ h. omega (arith, o h, length-append told own.1))

show-Answers :
    (fuel : ℕ) (t : TableName) (cmd rest : List ℕ)
    → depth t ≤ fuel
    → Answers (show_help fuel t cmd rest)
unfolding show_help
show-Answers zero t cmd rest h = absurd (omega (arith, depth_pos t))
show-Answers (suc fuel) t cmd rest h = elim (Option-cases (help_row (table_rows t) cmd)) [
  | inl e ↦ rw (show_help, e) (_, refl, sub-Told t [] cmd)
  | inr (r, e) ↦
      let next = if no_text cmd then none else strtok rest in
      let own = row-Told r (word_of next) in
      elim (Option-cases r.child_commands) [
        | inl f ↦ rw (show_help, e, f) (_, refl, own)
        | inr (child, f) ↦ elim (Bool-cases (no_text (word_of next))) [
          | inl g ↦ rw (show_help, e, f, g) (_, refl, own)
          | inr g ↦
              let below = row-ChildBelow (depth t) cmd (table_rows t) r (rows-AllBelow t) e in
              let lower : depth child < depth t = subst (ChildBelow (depth t)) f below in
              let (told, k, said) =
                show-Answers fuel child (word_of next) (behind next) (omega arith) in
              rw (show_help, e, f, g, k) (tried-Answers told (row_help r (word_of next)) said own)
        ]
      ]
]

commands_lem : (told : List (List ℕ)) × (handle_commands ≡ some told) × (0 < length told)
unfolding handle_commands show_help help_row show_sub_commands listed row_list table_rows
commands_lem = (_, refl, omega arith)

answered_lem :
    (r : Bool × List (List ℕ))
    → Told r
    → (told : List (List ℕ)) × (answered (some r) ≡ some told) × (0 < length told)
unfolding answered
answered_lem (true, told) said = (told, refl, said refl)
answered_lem (false, told) said =
    (_, refl, omega (arith, length-append told (codes "There is no help for that command" ∷ [])))

-- The command "help" returns whatever is typed behind it, since the tables are not nested deeper than
-- the fuel, and tells the user at least one text.
pub help_lem :
    (args : List ℕ) → (told : List (List ℕ)) × (handle_help args ≡ some told) × (0 < length told)
unfolding handle_help
help_lem args = elim (Option-cases (strtok args)) [
  | inl e ↦
      let (r, f, s) = show-Answers 2 command_table (codes "help") [] (omega arith) in
      let (more, g, l) = commands_lem in
      rw (handle_help, e, f, g) (_, refl, omega (arith, l, length-append r.1 more))
  | inr ((cmd, rest), e) ↦
      let (r, f, s) = show-Answers 2 command_table cmd rest (omega arith) in
      rw (handle_help, e, f) (answered_lem r s)
]
