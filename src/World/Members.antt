-- ===== src/World/Members.antt =====
-- Lemmas on the maps from numbers to pointers.
use project_secure_chat.Base.{
  ℕ, ◌≡◌, ◌≢◌, refl, sym, ◌⊎◌, inl, inr, none, some, List, [], ◌∷◌, ◌++◌, ◌==◌, Bool-cases, arith,
}
use project_secure_chat.World.Heap.{find, erase}

-- The pair of `k` and `p` is in the map.
abbrev pub In : ℕ → ℕ → List (ℕ × ℕ) → Type 0
In k p [] = ⊥
In k p ((j, q) ∷ rest) = ((j ≡ k) × (q ≡ p)) ⊎ In k p rest

-- No number occurs twice.
abbrev pub Distinct : List (ℕ × ℕ) → Type 0
Distinct [] = Unit {0}
Distinct ((j, q) ∷ rest) = (find j rest ≡ none) × Distinct rest

pub find-In : (k p : ℕ) (ms : List (ℕ × ℕ)) → find k ms ≡ some p → In k p ms
unfolding find
find-In k p [] h = cc
find-In k p ((j, q) ∷ rest) h = grind (arith, find-In k p rest)

pub In-find : (k p : ℕ) (ms : List (ℕ × ℕ)) → In k p ms → find k ms ≢ none
unfolding find
In-find k p [] m h = elim m [ ]
In-find k p ((j, q) ∷ rest) m h = grind (arith, In-find k p rest)

pub In-erase : (j k p : ℕ) (ms : List (ℕ × ℕ)) → In k p (erase j ms) → In k p ms × (k ≢ j)
unfolding erase
In-erase j k p [] m = elim m [ ]
In-erase j k p ((i, q) ∷ rest) m = grind (arith, In-erase j k p rest)

pub erase-In : (j k p : ℕ) (ms : List (ℕ × ℕ)) → In k p ms → k ≢ j → In k p (erase j ms)
unfolding erase
erase-In j k p [] m ne = elim m [ ]
erase-In j k p ((i, q) ∷ rest) m ne = grind (arith, erase-In j k p rest)

pub In-append :
    (j q k p : ℕ) (ms : List (ℕ × ℕ)) → In k p (ms ++ (j, q) ∷ []) → In k p ms ⊎ ((j ≡ k) × (q ≡ p))
In-append j q k p [] m = grind arith
In-append j q k p ((i, r) ∷ rest) m = grind (arith, In-append j q k p rest)

pub append-In :
    (j q k p : ℕ) (ms : List (ℕ × ℕ)) → In k p ms ⊎ ((j ≡ k) × (q ≡ p)) → In k p (ms ++ (j, q) ∷ [])
append-In j q k p [] m = grind arith
append-In j q k p ((i, r) ∷ rest) m = grind (arith, append-In j q k p rest)

find-append :
    (k j q : ℕ) (ms : List (ℕ × ℕ)) → find k ms ≡ none → j ≢ k → find k (ms ++ (j, q) ∷ []) ≡ none
unfolding find
find-append k j q [] h ne = grind arith
find-append k j q ((i, r) ∷ rest) h ne = grind (arith, find-append k j q rest)

find-erase : (k j : ℕ) (ms : List (ℕ × ℕ)) → find k ms ≡ none → find k (erase j ms) ≡ none
unfolding find erase
find-erase k j [] h = refl
find-erase k j ((i, r) ∷ rest) h = grind (arith, find-erase k j rest)

find-head :
    (k i r : ℕ) (rest : List (ℕ × ℕ))
    → find k ((i, r) ∷ rest) ≡ none
    → (i ≢ k) × (find k rest ≡ none)
unfolding find
find-head k i r rest h = grind arith

pub Distinct-append :
    (j q : ℕ) (ms : List (ℕ × ℕ)) → Distinct ms → find j ms ≡ none → Distinct (ms ++ (j, q) ∷ [])
unfolding find
Distinct-append j q [] d h = (refl, tt)
Distinct-append j q ((i, r) ∷ rest) (n, d) h =
    let (ne, h') = find-head j i r rest h in
    (find-append i j q rest n (λ e. ne (sym e)), Distinct-append j q rest d h')

pub Distinct-erase : (j : ℕ) (ms : List (ℕ × ℕ)) → Distinct ms → Distinct (erase j ms)
unfolding erase
Distinct-erase j [] d = d
Distinct-erase j ((i, r) ∷ rest) (n, d) = elim (Bool-cases (i == j)) [
  | inl e ↦ rw e (Distinct-erase j rest d)
  | inr e ↦ rw e (find-erase i j rest n, Distinct-erase j rest d)
]
