-- ===== src/World/Attach.antt =====
-- The invariant of the server's world when a session goes into a channel, and when a channel is made.
use project_secure_chat.Base.{
  ℕ, ◌<◌, ◌≡◌, ◌≢◌, sym, ap, ◌∙◌, ◌⊎◌, inl, inr, true, none, some, List, [], ◌∷◌, ◌++◌, ◌==◌,
  ==_iff, Bool-cases, Option-cases, arith,
}
use mathlib.Core.Path.{subst}
use project_secure_chat.World.Heap.{World, find, find_name, assign_name, set_channel}
use project_secure_chat.World.Channel.{set_members, new_channel}
use project_secure_chat.World.Members.{In, Distinct, find-In, In-append, append-In, Distinct-append}
use project_secure_chat.World.Keeps.{put_at-here}
use project_secure_chat.World.Consistent.{
  Consistent, members_of, attached, set_members-cases, after_set, others_kept, id_kept, this_kept,
  some-inj,
}

module _ (c p : ℕ) (w : World) (v : Consistent w) (free : (w.sessions p).channel ≡ none)
    (live : (w.sessions p).has_this ≡ true) (created : c < w.channel_count) where
  i : ℕ
  i = (w.sessions p).id

  ms : List (ℕ × ℕ)
  ms = members_of w c ++ (i, p) ∷ []

  -- No member of the channel has the identifier of a session that is in none.
  pub not_found : find (w.sessions p).id (members_of w c) ≡ none
  not_found = elim (Option-cases (find (w.sessions p).id (members_of w c))) [
    | inl e ↦ e
    | inr (q, e) ↦
        let (a, b) =
          v.entry_agrees c (w.sessions p).id q (find-In (w.sessions p).id q (members_of w c) e) in
        let same = v.one_each q p (v.alive c q b) live a in
        absurd (none_some c (sym free ∙ ap (λ r. (w.sessions r).channel) (sym same) ∙ b))
  ]
    where
      none_some : (x : ℕ) → none ≢ some x
      none_some x h = cc

  pub attached_channel : ((attached c p w).sessions p).channel ≡ some c
  unfolding set_channel
  attached_channel = ap (λ s. s.channel) (put_at-here p _ w.sessions)

  apart : (d q : ℕ) → (w.sessions q).channel ≡ some d → q ≢ p
  apart d q h e = none_some (sym free ∙ ap (λ r. (w.sessions r).channel) (sym e) ∙ h)
    where
      none_some : none ≢ some d
      none_some h = cc

  attached_entry_agrees :
      (d k q : ℕ)
      → In k q (members_of (attached c p w) d)
      → (((attached c p w).sessions q).id ≡ k) × (((attached c p w).sessions q).channel ≡ some d)
  unfolding set_channel i ms
  attached_entry_agrees d k q m =
      let w1 = set_members c ms w in
      let old : (d : ℕ)
          → In k q (members_of w d)
          → (((attached c p w).sessions q).id ≡ k)
            × (((attached c p w).sessions q).channel ≡ some d) =
        λ d m.
          let (x, y) = v.entry_agrees d k q m in
          (id_kept p (some c) w1 q ∙ x, others_kept p (some c) w1 d q (apart d q y) y) in
      elim (set_members-cases c ms w d) [
        | inl (a, b) ↦ elim (In-append i p k q (members_of w c) (subst (λ l. In k q l) b m)) [
          | inl m' ↦ old d (subst (λ d. In k q (members_of w d)) (sym a) m')
          | inr (x, y) ↦ (
            id_kept p (some c) w1 q ∙ ap (λ r. (w.sessions r).id) (sym y) ∙ x,
            subst (λ r. ((attached c p w).sessions r).channel ≡ some d) y
                (attached_channel ∙ ap some (sym a)),
          )
        ]
        | inr (a, b) ↦ old d (subst (λ l. In k q l) b m)
      ]

  attached_has_entry :
      (d q : ℕ)
      → ((attached c p w).sessions q).channel ≡ some d
      → In ((attached c p w).sessions q).id q (members_of (attached c p w) d)
  unfolding set_channel i ms
  attached_has_entry d q e =
      let w1 = set_members c ms w in
      let j = (w.sessions q).id in
      let goal : List (ℕ × ℕ) → Type 0 = λ l. In j q l in
      subst (λ j. In j q (members_of (attached c p w) d)) (sym (id_kept p (some c) w1 q))
        (elim (set_members-cases c ms w d) [
          | inl (a, b) ↦ subst goal (sym b) (
              append-In i p j q (members_of w c) (elim (after_set p (some c) w1 d q e) [
                | inl (x, y) ↦ inr (ap (λ r. (w.sessions r).id) (sym x), sym x)
                | inr (x, y) ↦ inl (v.has_entry c q (y ∙ ap some a))
              ]))
          | inr (a, b) ↦ subst goal (sym b) (elim (after_set p (some c) w1 d q e) [
            | inl (x, y) ↦ absurd (a (sym (some-inj y)))
            | inr (x, y) ↦ v.has_entry d q y
          ])
        ])

  attached_keys : (d : ℕ) → Distinct (members_of (attached c p w) d)
  unfolding set_channel i ms
  attached_keys d = elim (set_members-cases c ms w d) [
    | inl (a, b) ↦
        subst Distinct (sym b) (Distinct-append i p (members_of w c) (v.keys c) not_found)
    | inr (a, b) ↦ subst Distinct (sym b) (v.keys d)
  ]

  pub attached-Consistent : Consistent (attached c p w)
  unfolding set_channel i ms
  attached-Consistent =
      let w1 = set_members c ms w in
      record {
        entry_agrees = attached_entry_agrees;
        has_entry = attached_has_entry;
        keys = attached_keys;
        alive = λ d q e. this_kept p (some c) w1 q ∙ elim (after_set p (some c) w1 d q e) [
          | inl (x, y) ↦ ap (λ r. (w.sessions r).has_this) x ∙ live
          | inr (x, y) ↦ v.alive d q y
        ];
        one_each = λ q r a b e.
            v.one_each q r (sym (this_kept p (some c) w1 q) ∙ a)
              (sym (this_kept p (some c) w1 r) ∙ b)
              (sym (id_kept p (some c) w1 q) ∙ e ∙ id_kept p (some c) w1 r);
        allocated = λ d q e. elim (after_set p (some c) w1 d q e) [
          | inl (x, y) ↦ subst (λ d. d < w.channel_count) (some-inj y) created
          | inr (x, y) ↦ v.allocated d q y
        ];
        named = v.named;
      }

find_name-assign :
    (n m : List ℕ) (c d : ℕ) (names : List (List ℕ × ℕ))
    → find_name n (assign_name m c names) ≡ some d
    → (d ≡ c) ⊎ (find_name n names ≡ some d)
unfolding find_name assign_name
find_name-assign n m c d [] h = grind arith
find_name-assign n m c d ((k, e) ∷ rest) h = grind (arith, find_name-assign n m c d rest)

new_channel-cases :
    (name pass : List ℕ) (w : World) (d : ℕ)
    → ((d ≡ w.channel_count) × (members_of (new_channel name pass w) d ≡ []))
      ⊎ ((d ≢ w.channel_count) × (members_of (new_channel name pass w) d ≡ members_of w d))
new_channel-cases name pass w d = elim (Bool-cases (d == w.channel_count)) [
  | inl e ↦ inl ((==_iff d w.channel_count).0 e, rw (members_of, e))
  | inr e ↦ inr ((λ h. grind arith), rw (members_of, e))
]

pub new_channel-Consistent :
    (name pass : List ℕ) (w : World) → Consistent w → Consistent (new_channel name pass w)
new_channel-Consistent name pass w v = record {
  entry_agrees = λ d k q m. elim (new_channel-cases name pass w d) [
    | inl (a, b) ↦ elim (subst (λ l. In k q l) b m) [ ]
    | inr (a, b) ↦ v.entry_agrees d k q (subst (λ l. In k q l) b m)
  ];
  has_entry = λ d q e. elim (new_channel-cases name pass w d) [
    | inl (a, b) ↦ absurd (omega (arith, v.allocated d q e))
    | inr (a, b) ↦ subst (λ l. In (w.sessions q).id q l) (sym b) (v.has_entry d q e)
  ];
  keys = λ d. elim (new_channel-cases name pass w d) [
    | inl (a, b) ↦ subst Distinct (sym b) tt
    | inr (a, b) ↦ subst Distinct (sym b) (v.keys d)
  ];
  alive = v.alive;
  one_each = v.one_each;
  allocated = λ d q e. omega (arith, v.allocated d q e);
  named = λ n d e. elim (find_name-assign n name w.channel_count d w.names e) [
    | inl x ↦ omega arith
    | inr x ↦ omega (arith, v.named n d x)
  ];
}
