-- ===== src/World/Consistent.antt =====
-- The invariant of the server's world: a session and its channel know each other.
use project_secure_chat.Base.{
  ℕ, ◌<◌, ◌≡◌, ◌≢◌, refl, sym, ap, ◌∙◌, ◌⊎◌, inl, inr, true, Option, none, some, List, [], ◌∷◌,
  ◌++◌, ◌==◌, ==_iff, Bool-cases, arith,
}
use mathlib.Core.Path.{subst}
use project_secure_chat.World.Heap.{World, find_name, erase, set_channel}
use project_secure_chat.World.Channel.{set_members}
use project_secure_chat.World.Members.{In, Distinct, In-erase, erase-In, Distinct-erase}
use project_secure_chat.World.Keeps.{Keeps, put_at-same}

abbrev pub members_of : World → ℕ → List (ℕ × ℕ)
members_of w c = (w.channels c).members

-- `entry_agrees` and `has_entry`: a channel's members are the sessions that are in it, each under its
-- identifier, and once (`keys`). `alive` and `one_each`: they have their own pointer, and no two such
-- sessions share an identifier. `allocated` and `named`: a channel in use was created.
pub record Consistent (w : World) : Type 0 where
  pub entry_agrees :
      (c k p : ℕ)
      → In k p (members_of w c)
      → ((w.sessions p).id ≡ k) × ((w.sessions p).channel ≡ some c)
  pub has_entry :
      (c p : ℕ) → (w.sessions p).channel ≡ some c → In (w.sessions p).id p (members_of w c)
  pub keys : (c : ℕ) → Distinct (members_of w c)
  pub alive : (c p : ℕ) → (w.sessions p).channel ≡ some c → (w.sessions p).has_this ≡ true
  pub one_each :
      (p q : ℕ)
      → (w.sessions p).has_this ≡ true
      → (w.sessions q).has_this ≡ true
      → (w.sessions p).id ≡ (w.sessions q).id
      → p ≡ q
  pub allocated : (c p : ℕ) → (w.sessions p).channel ≡ some c → c < w.channel_count
  pub named : (n : List ℕ) (c : ℕ) → find_name n w.names ≡ some c → c < w.channel_count

pub Keeps-Consistent : (w w' : World) → Keeps w w' → Consistent w → Consistent w'
Keeps-Consistent w w' k v = record {
  entry_agrees = λ c j p m.
      let (a, b) = v.entry_agrees c j p (rw (sym k.channels_eq) m) in
      (k.ids p ∙ a, k.channel_of p ∙ b);
  has_entry = λ c p h. rw (k.ids p, k.channels_eq) (v.has_entry c p (sym (k.channel_of p) ∙ h));
  keys = λ c. rw k.channels_eq (v.keys c);
  alive = λ c p h. k.this_of p ∙ v.alive c p (sym (k.channel_of p) ∙ h);
  one_each = λ p q a b e.
      v.one_each p q (sym (k.this_of p) ∙ a) (sym (k.this_of q) ∙ b) (sym (k.ids p) ∙ e ∙ k.ids q);
  allocated = λ c p h. rw k.count_eq (v.allocated c p (sym (k.channel_of p) ∙ h));
  named = λ n c h. rw k.count_eq (v.named n c (rw (sym k.names_eq) h));
}

-- A session goes out of its channel.
abbrev pub detached : ℕ → ℕ → World → World
detached c p w = set_channel p none (set_members c (erase (w.sessions p).id (members_of w c)) w)

-- A session goes into a channel.
abbrev pub attached : ℕ → ℕ → World → World
attached c p w =
    set_channel p (some c) (set_members c (members_of w c ++ ((w.sessions p).id, p) ∷ []) w)

pub some-inj {ℓ} : {A : Type ℓ} {a b : A} → some a ≡ some b → a ≡ b
some-inj {A} {a} h = ap (λ o. elim o [ some x ↦ x | none ↦ a ]) h

-- The members of a channel after a write to one.
pub set_members-cases :
    (c : ℕ) (ms : List (ℕ × ℕ)) (w : World) (d : ℕ)
    → ((d ≡ c) × (members_of (set_members c ms w) d ≡ ms))
      ⊎ ((d ≢ c) × (members_of (set_members c ms w) d ≡ members_of w d))
set_members-cases c ms w d = elim (Bool-cases (d == c)) [
  | inl e ↦ inl ((==_iff d c).0 e, rw (members_of, e))
  | inr e ↦ inr ((λ h. grind arith), rw (members_of, e))
]

-- A session after a write to one.
set_channel-cases :
    (p : ℕ) (c : Option ℕ) (w : World) (q : ℕ)
    → ((q ≡ p) × (((set_channel p c w).sessions q).channel ≡ c))
      ⊎ ((q ≢ p) × (((set_channel p c w).sessions q).channel ≡ (w.sessions q).channel))
unfolding set_channel
set_channel-cases p c w q = elim (Bool-cases (q == p)) [
  | inl e ↦ inl ((==_iff q p).0 e, rw e)
  | inr e ↦ inr ((λ h. grind arith), rw e)
]

-- A change of the channels and of one session's channel leaves the rest of the sessions.
module _ (p : ℕ) (c : Option ℕ) (w : World) where
  pub id_kept : (q : ℕ) → ((set_channel p c w).sessions q).id ≡ (w.sessions q).id
  unfolding set_channel
  id_kept = put_at-same (λ s. s.id) p _ w.sessions refl

  pub this_kept : (q : ℕ) → ((set_channel p c w).sessions q).has_this ≡ (w.sessions q).has_this
  unfolding set_channel
  this_kept = put_at-same (λ s. s.has_this) p _ w.sessions refl

-- Who is in a channel once `p` is put in one or in none.
pub after_set :
    (p : ℕ) (c : Option ℕ) (w : World) (d q : ℕ)
    → ((set_channel p c w).sessions q).channel ≡ some d
    → ((q ≡ p) × (c ≡ some d)) ⊎ ((q ≢ p) × ((w.sessions q).channel ≡ some d))
after_set p c w d q e = elim (set_channel-cases p c w q) [
  | inl (a, b) ↦ inl (a, sym b ∙ e)
  | inr (a, b) ↦ inr (a, sym b ∙ e)
]

pub others_kept :
    (p : ℕ) (c : Option ℕ) (w : World) (d q : ℕ)
    → q ≢ p
    → (w.sessions q).channel ≡ some d
    → ((set_channel p c w).sessions q).channel ≡ some d
others_kept p c w d q ne e = elim (set_channel-cases p c w q) [
  | inl (a, b) ↦ absurd (ne a)
  | inr (a, b) ↦ b ∙ e
]

left_out :
    (p : ℕ) (w : World) (d q : ℕ)
    → ((set_channel p none w).sessions q).channel ≡ some d
    → (q ≢ p) × ((w.sessions q).channel ≡ some d)
left_out p w d q e = elim (after_set p none w d q e) [ inl (a, b) ↦ absurd (cc) | inr ab ↦ ab ]

module _ (c p : ℕ) (w : World) (v : Consistent w) (h : (w.sessions p).channel ≡ some c) where
  i : ℕ
  i = (w.sessions p).id

  detached_entry_agrees :
      (d k q : ℕ)
      → In k q (members_of (detached c p w) d)
      → (((detached c p w).sessions q).id ≡ k) × (((detached c p w).sessions q).channel ≡ some d)
  unfolding i set_channel
  detached_entry_agrees d k q m =
      let ms = erase i (members_of w c) in
      let w1 = set_members c ms w in
      elim (set_members-cases c ms w d) [
        | inl (a, b) ↦
            let (m', ne) = In-erase i k q (members_of w c) (subst (λ l. In k q l) b m) in
            let (x, y) = v.entry_agrees c k q m' in
            (
              id_kept p none w1 q ∙ x,
              others_kept p none w1 d q (λ e. ne (sym x ∙ ap (λ r. (w.sessions r).id) e))
                  (y ∙ ap some (sym a)),
            )
        | inr (a, b) ↦
            let (x, y) = v.entry_agrees d k q (subst (λ l. In k q l) b m) in
            (
              id_kept p none w1 q ∙ x,
              others_kept p none w1 d q
                  (λ e. a (some-inj (sym y ∙ ap (λ r. (w.sessions r).channel) e ∙ h))) y,
            )
      ]

  detached_has_entry :
      (d q : ℕ)
      → ((detached c p w).sessions q).channel ≡ some d
      → In ((detached c p w).sessions q).id q (members_of (detached c p w) d)
  unfolding i set_channel
  detached_has_entry d q e =
      let ms = erase i (members_of w c) in
      let w1 = set_members c ms w in
      let (ne, f) = left_out p w1 d q e in
      let m = v.has_entry d q f in
      let differ : (w.sessions q).id ≢ i =
        λ same. ne (v.one_each q p (v.alive d q f) (v.alive c p h) same) in
      subst (λ j. In j q (members_of (detached c p w) d)) (sym (id_kept p none w1 q))
        (elim (set_members-cases c ms w d) [
          | inl (a, b) ↦
              subst (λ l. In (w.sessions q).id q l) (sym b)
                (erase-In i (w.sessions q).id q (members_of w c)
                  (subst (λ d. In (w.sessions q).id q (members_of w d)) a m) differ)
          | inr (a, b) ↦ subst (λ l. In (w.sessions q).id q l) (sym b) m
        ])

  detached_keys : (d : ℕ) → Distinct (members_of (detached c p w) d)
  unfolding i set_channel
  detached_keys d =
      let ms = erase i (members_of w c) in
      elim (set_members-cases c ms w d) [
        | inl (a, b) ↦ subst Distinct (sym b) (Distinct-erase i (members_of w c) (v.keys c))
        | inr (a, b) ↦ subst Distinct (sym b) (v.keys d)
      ]

  pub detached-Consistent : Consistent (detached c p w)
  unfolding i set_channel
  detached-Consistent =
      let w1 = set_members c (erase i (members_of w c)) w in
      record {
        entry_agrees = detached_entry_agrees;
        has_entry = detached_has_entry;
        keys = detached_keys;
        alive = λ d q e. this_kept p none w1 q ∙ v.alive d q (left_out p w1 d q e).1;
        one_each = λ q r a b e.
            v.one_each q r (sym (this_kept p none w1 q) ∙ a) (sym (this_kept p none w1 r) ∙ b)
              (sym (id_kept p none w1 q) ∙ e ∙ id_kept p none w1 r);
        allocated = λ d q e. v.allocated d q (left_out p w1 d q e).1;
        named = v.named;
      }
