-- ===== src/Commands/Depth.antt =====
-- The tables of commands are not nested deeper than the fuel allows.
use project_secure_chat.Base.{
  ℕ, zero, suc, ◌<◌, ◌≤◌, ◌≡◌, refl, inl, inr, Bool-cases, Option-cases, Bool, false, Option, none,
  some, List, [], ◌∷◌, arith,
}
use mathlib.Core.Path.{subst}
use mathlib.Core.Option.{some-injective}
use project_secure_chat.Base.Result.{Result, ok, err, assertion}
use project_secure_chat.Commands.Table.{
  ChatCommand, CommandHandler, TableName, command_table, channel_command_table,
  utility_command_table, table_rows, row_fits, find_from, find_command,
}
use project_secure_chat.Commands.Parse.{
  Action, first_word, rest_of, execute_command_in_table, parse_commands, ignored, told,
  skip_cmd_char,
}

abbrev pub depth : TableName → ℕ
depth command_table = 2
depth channel_command_table = 1
depth utility_command_table = 1

abbrev pub ChildBelow : ℕ → Option TableName → Type 0
ChildBelow n none = Unit {0}
ChildBelow n (some t) = depth t < n

abbrev pub AllBelow : ℕ → List ChatCommand → Type 0
AllBelow n [] = Unit {0}
AllBelow n (r ∷ rs) = ChildBelow n r.child_commands × AllBelow n rs

pub rows-AllBelow : (t : TableName) → AllBelow (depth t) (table_rows t)
unfolding table_rows
rows-AllBelow command_table = (omega arith, (omega arith, (tt, (tt, (tt, (tt, tt))))))
rows-AllBelow channel_command_table = (tt, (tt, (tt, (tt, (tt, (tt, tt))))))
rows-AllBelow utility_command_table = tt

find-ChildBelow :
    (n : ℕ) (table : List ChatCommand) (cmd : List ℕ) (rows : List ChatCommand) (r : ChatCommand)
    → AllBelow n rows
    → find_from table cmd rows ≡ some r
    → ChildBelow n r.child_commands
find-ChildBelow n table cmd [] r below f = cc
find-ChildBelow n table cmd (r0 ∷ rows) r below f = elim (Bool-cases (row_fits table cmd r0)) [
  | inl g ↦
      subst (λ (x : ChatCommand). ChildBelow n x.child_commands) (some-injective r0 r (rw g at f))
        below.0
  | inr g ↦ find-ChildBelow n table cmd rows r below.1 (rw g at f)
]

command-ChildBelow :
    (t : TableName) (cmd : List ℕ) (r : ChatCommand)
    → find_command (table_rows t) cmd ≡ some r
    → ChildBelow (depth t) r.child_commands
unfolding find_command
command-ChildBelow t cmd r e =
    find-ChildBelow (depth t) (table_rows t) cmd (table_rows t) r (rows-AllBelow t) e

pub depth_pos : (t : TableName) → 0 < depth t
depth_pos command_table = omega arith
depth_pos channel_command_table = omega arith
depth_pos utility_command_table = omega arith

module _ (succeeds : CommandHandler → List ℕ → Bool) where
  execute_lem :
      (fuel : ℕ) (t : TableName) (text : List ℕ)
      → depth t ≤ fuel
      → (result : Bool × List Action) × (execute_command_in_table succeeds fuel t text
          ≡ some result)
  unfolding execute_command_in_table
  execute_lem zero t text h = absurd (omega (arith, depth_pos t))
  execute_lem (suc fuel) t text h =
      elim (Option-cases (find_command (table_rows t) (first_word text))) [
        | inl e ↦ rw (execute_command_in_table, e) ((false, []), refl)
        | inr (r, e) ↦ elim (Option-cases r.child_commands) [
          | inl f ↦ rw (execute_command_in_table, e, f) (_, refl)
          | inr (child, f) ↦
              let below = command-ChildBelow t (first_word text) r e in
              let lower : depth child < depth t = subst (ChildBelow (depth t)) f below in
              let (result, g) = execute_lem fuel child (rest_of text) (omega arith) in
              rw (execute_command_in_table, e, f, g) (_, refl)
        ]
      ]

returned :
    {text : List ℕ} (x : ℕ × List Action)
    → ◌≡◌ {A = Result (ℕ × List Action)} (ok x) (err assertion)
    → text ≡ []
returned x h = cc

-- ParseCommands ends on every text, whatever the handlers return: the tables are not nested deeper
-- than the fuel, and its assertion fails at most where there is no text.
pub parse_total :
    (succeeds : CommandHandler → List ℕ → Bool) (in_session : Bool) (text : List ℕ)
    → (result : Result (ℕ × List Action)) × (parse_commands succeeds in_session text ≡ some result)
      × ((result ≡ err assertion → text ≡ []))
unfolding parse_commands
parse_total succeeds in_session [] = (err assertion, refl, λ h. refl)
parse_total succeeds in_session (c ∷ cs) = elim (Bool-cases (ignored in_session (c ∷ cs))) [
  | inl e ↦ rw e (ok (0, []), refl, λ h. returned (0, []) h)
  | inr e ↦
      let (result, g) =
        execute_lem succeeds 2 command_table (skip_cmd_char (c ∷ cs)) (omega arith) in
      rw (e, g) (ok (told result), refl, λ h. returned (told result) h)
]
