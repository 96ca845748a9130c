-- ===== src/Base/Result.antt =====
-- What a call that may throw returns. The exceptions are those of bytebuffer.h, what the standard
-- library throws on an oversized vector, what base64.cpp throws on a character outside its alphabet,
-- a failed `assert`, and an access outside an allocated block, which C++ leaves undefined and the
-- model reports.
use mathlib.Core.Path.{◌≡◌, refl, ap}
use mathlib.Core.Logic.{◌⊎◌, inl, inr}
use mathlib.Core.Bool.{Bool, true, false}

pub data Error : Type 0 where
  position source length_error invalid_argument assertion out_of_bounds : Error

pub data Result {ℓ} (A : Type ℓ) : Type ℓ where
  err : Error → Result A
  ok : A → Result A

-- `if (test) throw e;`
abbrev pub throw_if : Bool → Error → Result (Unit {0})
throw_if false e = ok tt
throw_if true e = err e

-- A statement after another one that may throw, with or without its value.
infixl 5 ◌>>◌ ◌>>=◌
abbrev pub ◌>>◌ {κ} : {C : Type κ} → Result (Unit {0}) → Result C → Result C
err thrown >> next = err thrown
ok done >> next = next

abbrev pub ◌>>=◌ {ℓ κ} : {B : Type ℓ} {C : Type κ} → Result B → (B → Result C) → Result C
err thrown >>= next = err thrown
ok value >>= next = next value

-- What came before a value that was returned.
pub >>=-returned {ℓ κ} :
    {B : Type ℓ} {C : Type κ} {c : C} (first : Result B) (next : B → Result C)
    → (first >>= next) ≡ ok c
    → (b : B) × (first ≡ ok b) × (next b ≡ ok c)
>>=-returned (err thrown) next same = cc
>>=-returned (ok b) next same = (b, refl, same)

pub Result-cases {ℓ} :
    {A : Type ℓ} (r : Result A) → ((e : Error) × (r ≡ err e)) ⊎ ((a : A) × (r ≡ ok a))
Result-cases (err e) = inl (e, refl)
Result-cases (ok a) = inr (a, refl)

value_or {ℓ} : {A : Type ℓ} → A → Result A → A
value_or a (err e) = a
value_or a (ok b) = b

pub ok_injective {ℓ} : {A : Type ℓ} (a b : A) → ok a ≡ ok b → a ≡ b
unfolding value_or
ok_injective a b e = ap (value_or a) e

pub err_not {ℓ} : {A : Type ℓ} (e : Error) (a : A) → ¬ (err e ≡ ok a)
err_not e a h = cc
