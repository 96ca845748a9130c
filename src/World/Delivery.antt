-- ===== src/World/Delivery.antt =====
-- src/server/channel/channel.cpp and src/server/session/session.cpp: who gets what HandleMessage and
-- HandleWhisp send.
use project_secure_chat.Base.{
  ℕ, ◌≡◌, ◌≢◌, refl, sym, ap, ◌∙◌, inl, inr, true, none, List, [], ◌∷◌, ◌++◌, Bool-cases, ◌==◌,
  ne→==, arith,
}
use mathlib.Core.Path.{subst}
use project_secure_chat.LockQueue.{add}
use project_secure_chat.World.Heap.{World, Message, send_packet, find}
use project_secure_chat.World.Channel.{send_to_all_but_one}
use project_secure_chat.World.Members.{In, Distinct, In-find}
use project_secure_chat.World.Keeps.{send_packet-Keeps, put_at-here, put_at-there}

-- What a session has to send.
abbrev pub queue : World → ℕ → List Message
queue w q = (w.sessions q).send_queue.items

pub sent_there :
    (m : Message) (p : ℕ) (w : World) (q : ℕ)
    → q ≢ p
    → (send_packet m p w).sessions q ≡ w.sessions q
unfolding send_packet
sent_there m p w q ne = elim (Bool-cases (w.sessions p).connected) [
  | inr e ↦ rw e
  | inl e ↦ elim (Bool-cases (w.sessions p).has_this) [
    | inr f ↦ rw (e, f) (put_at-there p _ w.sessions q ne)
    | inl f ↦ rw (e, f) (put_at-there p _ w.sessions q ne)
  ]
]

pub sent_here :
    (m : Message) (p : ℕ) (w : World)
    → (w.sessions p).connected ≡ true
    → (w.sessions p).has_this ≡ true
    → queue (send_packet m p w) p ≡ queue w p ++ m ∷ []
unfolding send_packet add
sent_here m p w e f = rw (e, f) (ap (λ s. s.send_queue.items) (put_at-here p _ w.sessions))

-- The sessions that a broadcast does not reach are as they were.
pub broadcast_there :
    (m : Message) (id : ℕ) (ms : List (ℕ × ℕ)) (w : World) (q : ℕ)
    → ((k : ℕ) → In k q ms → (w.sessions q).id ≡ id)
    → (send_to_all_but_one m id ms w).sessions q ≡ w.sessions q
unfolding send_to_all_but_one
broadcast_there m id [] w q h = refl
broadcast_there m id ((k, p) ∷ rest) w q h = elim (Bool-cases ((w.sessions p).id == id)) [
  | inl e ↦ rw (send_to_all_but_one, e) (broadcast_there m id rest w q (λ j i. h j (inr i)))
  | inr e ↦
      let ne : q ≢ p = λ s. grind (arith, h k (inl (refl, sym s)), ap (λ r. (w.sessions r).id) s) in
      let same = sent_there m p w q ne in
      rw (send_to_all_but_one, e)
        (broadcast_there m id rest (send_packet m p w) q (λ j i. ap (λ s. s.id) same ∙ h j (inr i))
          ∙ same)
]

-- The entries of a map of members are under their sessions' identifiers.
abbrev Keyed : List (ℕ × ℕ) → World → Type 0
Keyed ms w = (k p : ℕ) → In k p ms → (w.sessions p).id ≡ k

not_again :
    (id j q : ℕ) (rest : List (ℕ × ℕ)) (w : World)
    → find j rest ≡ none
    → Keyed rest w
    → (w.sessions q).id ≡ j
    → (k : ℕ) → In k q rest
    → (w.sessions q).id ≡ id
not_again id j q rest w none_left keyed same k i =
    absurd (In-find j q rest (subst (λ k. In k q rest) (sym (keyed k q i) ∙ same) i) none_left)

pub broadcast_here :
    (m : Message) (id : ℕ) (ms : List (ℕ × ℕ)) (w : World) (k q : ℕ)
    → Distinct ms
    → Keyed ms w
    → In k q ms
    → (w.sessions q).id ≢ id
    → (w.sessions q).connected ≡ true
    → (w.sessions q).has_this ≡ true
    → queue (send_to_all_but_one m id ms w) q ≡ queue w q ++ m ∷ []
unfolding send_to_all_but_one
broadcast_here m id [] w k q d keyed i ne c t = elim i [ ]
broadcast_here m id ((j, p) ∷ rest) w k q (d0, d) keyed (inl (jk, pq)) ne c t =
    let w1 = send_packet m p w in
    let kept = send_packet-Keeps m p w in
    let id_q : (w1.sessions q).id ≡ j = kept.ids q ∙ keyed k q (inl (jk, pq)) ∙ sym jk in
    let keyed1 : Keyed rest w1 = λ j r i. kept.ids r ∙ keyed j r (inr i) in
    rw
      (
        send_to_all_but_one,
        ne→== (w.sessions p).id id (λ h. ne (sym (ap (λ r. (w.sessions r).id) pq) ∙ h)),
      )
      (ap (λ s. s.send_queue.items)
          (broadcast_there m id rest w1 q (not_again id j q rest w1 d0 keyed1 id_q))
        ∙ ap (queue w1) (sym pq)
        ∙ sent_here m p w (ap (λ r. (w.sessions r).connected) pq ∙ c)
            (ap (λ r. (w.sessions r).has_this) pq ∙ t)
        ∙ ap (λ r. queue w r ++ m ∷ []) pq)
broadcast_here m id ((j, p) ∷ rest) w k q (d0, d) keyed (inr i) ne c t =
    let keyed0 : Keyed rest w = λ j r i. keyed j r (inr i) in
    let apart : q ≢ p = λ s. ne (
      not_again id j q rest w d0 keyed0
        (ap (λ r. (w.sessions r).id) s ∙ keyed j p (inl (refl, refl))) k i) in
    elim (Bool-cases ((w.sessions p).id == id)) [
      | inl e ↦ rw (send_to_all_but_one, e) (broadcast_here m id rest w k q d keyed0 i ne c t)
      | inr e ↦
          let w1 = send_packet m p w in
          let kept = send_packet-Keeps m p w in
          let same = sent_there m p w q apart in
          rw (send_to_all_but_one, e)
            (broadcast_here m id rest w1 k q d (λ j r i. kept.ids r ∙ keyed0 j r i) i
                (λ h. ne (sym (ap (λ s. s.id) same) ∙ h)) (ap (λ s. s.connected) same ∙ c)
                (ap (λ s. s.has_this) same ∙ t)
              ∙ ap (λ s. s.send_queue.items ++ m ∷ []) same)
    ]
