-- ===== src/Commands/Choice.antt =====
-- Which row of a table a command comes to.
use project_secure_chat.Base.{
  ℕ, ◌<◌, ◌≤◌, ◌≡◌, refl, ap₂, inl, inr, Bool-cases, Bool, true, false, not, ◌&&◌, some, List, [],
  ◌∷◌, ltb, ltb→le, ◌==◌, ==_iff, length, map, arith,
}
use mathlib.Core.Path.{subst}
use mathlib.Core.Option.{some-injective}
use project_secure_chat.Commands.Table.{
  ChatCommand, tolower, abbr_loop, has_string_abbr, has_exact, usable, row_fits, find_from,
  find_command,
}

-- No row has the empty name.
abbrev pub Named : List ChatCommand → Type 0
Named [] = Unit {0}
Named (r ∷ rs) = (0 < length r.name) × Named rs

full_abbr :
    (name cmd : List ℕ)
    → abbr_loop name cmd ≡ true
    → length name ≤ length cmd
    → map tolower name ≡ map tolower cmd
unfolding abbr_loop
full_abbr [] [] h k = refl
full_abbr (n ∷ ns) [] h k = absurd (omega arith)
full_abbr [] (c ∷ cs) h k = cc
full_abbr (n ∷ ns) (c ∷ cs) h k = elim (Bool-cases (tolower n == tolower c)) [
  | inl e ↦
      ap₂ (λ x xs. x ∷ xs) ((==_iff (tolower n) (tolower c)).0 e)
        (full_abbr ns cs (rw e at h) (omega arith))
  | inr e ↦ let wrong : false ≡ true = rw e at h in cc
]

fits_lem :
    (name cmd : List ℕ) (u : Bool)
    → 0 < length name
    → (has_string_abbr name cmd && (not (ltb (length cmd) (length name) && true) && u)) ≡ true
    → map tolower name ≡ map tolower cmd
unfolding has_string_abbr
fits_lem [] cmd u h f = absurd (omega arith)
fits_lem (n ∷ ns) [] u h f = cc
fits_lem (n ∷ ns) (c ∷ cs) u h f = elim (Bool-cases (abbr_loop (n ∷ ns) (c ∷ cs))) [
  | inr e ↦ let wrong : false ≡ true = rw e at f in cc
  | inl e ↦ elim (Bool-cases (ltb (length (c ∷ cs)) (length (n ∷ ns)))) [
    | inl g ↦ let wrong : false ≡ true = rw (e, g) at f in cc
    | inr g ↦ full_abbr (n ∷ ns) (c ∷ cs) e (ltb→le (length (c ∷ cs)) (length (n ∷ ns)) g)
  ]
]

from_lem :
    (table : List ChatCommand) (cmd : List ℕ) (rows : List ChatCommand) (r : ChatCommand)
    → Named rows
    → has_exact table cmd ≡ true
    → find_from table cmd rows ≡ some r
    → map tolower r.name ≡ map tolower cmd
from_lem table cmd [] r names e f = cc
from_lem table cmd (r0 ∷ rows) r names e f = elim (Bool-cases (row_fits table cmd r0)) [
  | inl g ↦
      let same : r0 ≡ r = some-injective r0 r (rw g at f) in
      let fits = fits_lem r0.name cmd (usable r0) names.0 (rw e at g) in
      subst (λ (x : ChatCommand). map tolower x.name ≡ map tolower cmd) same fits
  | inr g ↦ from_lem table cmd rows r names.1 e (rw g at f)
]

-- In a table without empty names, a command that is exactly the name of a row comes to a row of that
-- name, up to the case of letters, and never to a longer name that it abbreviates.
pub choice_lem :
    (table : List ChatCommand) (cmd : List ℕ) (r : ChatCommand)
    → Named table
    → has_exact table cmd ≡ true
    → find_command table cmd ≡ some r
    → map tolower r.name ≡ map tolower cmd
unfolding find_command
choice_lem table cmd r names e f = from_lem table cmd table r names e f
