-- ===== src/Dispatch/Batches.antt =====
-- src/server/session/session.cpp: the loop of Session::Update and the packets that arrive meanwhile.
use project_secure_chat.Base.{
  ◌≡◌, refl, ◌∙◌, sym, ap, Bool, true, false, inl, inr, Bool-cases, List, [], ◌∷◌, ◌++◌, ◌⊎◌,
}
use project_secure_chat.Base.Result.{Result, Error, Result-cases, ok, err, ◌>>=◌}
use project_secure_chat.Packet.Defs.{Packet}
use project_secure_chat.Dispatch.Server.{Actions, passes, process, pump}

-- What the loop does at the front of the queue.
pub data Front {ℓ} {S : Type ℓ} (ops : Actions S) (single : Bool) (p : Packet) (s : S)
    : Type ℓ where
  stays :
      (ops.opened s ≡ false) ⊎ (passes ops single p s ≡ ok false)
      → ((ps : List Packet) → pump ops single (p ∷ ps) s ≡ ok (s, p ∷ ps))
      → Front ops single p s
  taken :
      (s' : S)
      → ops.opened s ≡ true
      → passes ops single p s ≡ ok true
      → process ops p s ≡ ok s'
      → ((ps : List Packet) → pump ops single (p ∷ ps) s ≡ pump ops single ps s')
      → Front ops single p s
  fails :
      (e : Error)
      → (passes ops single p s ≡ err e) ⊎ (process ops p s ≡ err e)
      → ((ps : List Packet) → pump ops single (p ∷ ps) s ≡ err e)
      → Front ops single p s

module _ {ℓ} {S : Type ℓ} (ops : Actions S) (single : Bool) where
  pub front_cases : (p : Packet) (s : S) → Front ops single p s
  unfolding pump
  front_cases p s = elim (Bool-cases (ops.opened s)) [
    | inr c ↦ Front.stays (inl c) (λ ps. rw (c, pump) refl)
    | inl o ↦ elim (Result-cases (passes ops single p s)) [
      | inl (e, f) ↦ Front.fails e (inl f) (λ ps. rw (o, f, pump) refl)
      | inr (false, f) ↦ Front.stays (inr f) (λ ps. rw (o, f, pump) refl)
      | inr (true, f) ↦ elim (Result-cases (process ops p s)) [
        | inl (e, g) ↦ Front.fails e (inr g) (λ ps. rw (o, f, g, pump) refl)
        | inr (s', g) ↦ Front.taken s' o f g (λ ps. rw (o, f, g, pump) refl)
      ]
    ]
  ]

  abbrev go_on : List Packet → Result (S × List Packet) → Result (S × List Packet)
  go_on more r = r >>= λ (s', rest). pump ops single (rest ++ more) s'

  -- Whether packets arrive before or after an update makes no difference: the loop over a queue with
  -- more packets behind does what the loop over the shorter queue does, and then goes on with what that
  -- left in the queue and the packets behind it. An access outside the table, if there is one, is the
  -- same too.
  pub pump_batch :
      (ps more : List Packet) (s : S)
      → pump ops single (ps ++ more) s
        ≡ (pump ops single ps s >>= λ (s', rest). pump ops single (rest ++ more) s')
  pump_batch [] more s = unfold pump in refl
  pump_batch (p ∷ ps) more s = elim (front_cases p s) [
    | Front.stays why e ↦ sym (ap (go_on more) (e ps))
    | Front.taken s' o f g e ↦
        e (ps ++ more) ∙ (pump_batch ps more s' ∙ sym (ap (go_on more) (e ps)))
    | Front.fails er why e ↦ e (ps ++ more) ∙ sym (ap (go_on more) (e ps))
  ]
