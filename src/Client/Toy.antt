-- ===== src/Client/Toy.antt =====
-- A vasprintf that satisfies what is assumed of it.
use project_secure_chat.Base.{
  ℕ, ◌≡◌, ◌≢◌, refl, Bool, true, false, not, ◌&&◌, ◌==◌, if◌then◌else◌, List, [], ◌∷◌, ◌++◌, ne→==,
}
use mathlib.Core.Path.{subst}
use project_secure_chat.Base.Result.{Result, ok, err, out_of_bounds, ◌>>=◌}
use project_secure_chat.Client.Screen.{Printf}
use project_secure_chat.Client.Formats.{NoPercent, takes_argument, IsPrintf}

-- Only `%%` is known to it; the flag says that a `%` came before.
unfoldable pub formatted_from : Bool → List ℕ → Result (List ℕ)
formatted_from true [] = err out_of_bounds
formatted_from false [] = ok []
formatted_from escape (c ∷ cs) =
    let rest = formatted_from (not escape && c == b'%') cs in
    if escape
    then if c == b'%' then (do r ← rest; ok (c ∷ r)) else err out_of_bounds
    else if c == b'%'
    then rest
    else (do r ← rest; ok (c ∷ r))

abbrev pub toy_printf : Printf
toy_printf = formatted_from false

formatted_plain : (t : List ℕ) → NoPercent t → formatted_from false t ≡ ok t
unfolding formatted_from
formatted_plain [] h = refl
formatted_plain (c ∷ cs) h = rw (ne→== c b'%' h.0, formatted_plain cs h.1)

formatted_directive :
    (pre post : List ℕ) (d : ℕ)
    → NoPercent pre
    → d ≢ b'%'
    → formatted_from false (pre ++ b'%' ∷ d ∷ post) ≡ err out_of_bounds
unfolding formatted_from
formatted_directive [] post d h k = rw (ne→== d b'%' k) refl
formatted_directive (c ∷ pre) post d h k =
    rw (ne→== c b'%' h.0, formatted_directive pre post d h.1 k)

takes_other : (d : ℕ) → takes_argument d ≡ true → d ≢ b'%'
takes_other d h z = let k : false ≡ true = subst (λ d. takes_argument d ≡ true) z h in absurd (cc k)

pub toy-IsPrintf : IsPrintf toy_printf
toy-IsPrintf = record {
  plain = formatted_plain;
  lacking = λ pre post d h k. formatted_directive pre post d h (takes_other d k);
}
