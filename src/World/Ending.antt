-- ===== src/World/Ending.antt =====
-- src/server/session/session-manager.cpp: what Update does with a session whose own Update returned false,
-- but for the waiting queue: RemoveSession of its channel, deleteSmartPointer and the map's erase. The
-- last pointer to the object goes with that, and the object with it. Also FindSession by number,
-- RemoveSession and GetIdList.
use project_secure_chat.Base.{
  ℕ, ◌≡◌, refl, sym, ap, ◌∙◌, inl, inr, ◌⊎◌, true, false, Option, none, some, List, Bool-cases,
  ◌==◌, ==_iff, map,
}
use mathlib.Core.Path.{subst, fun_ext}
use project_secure_chat.Base.Result.{Result, Error, ok, err, ok_injective, err_not, ◌>>=◌}
use project_secure_chat.World.Channel.{remove_session}
use project_secure_chat.Xml.Defs.{TinyXml}
use project_secure_chat.World.Heap.{World, Session, set_session, set_channel, put_at, find, erase}
use project_secure_chat.World.Handlers.{leave_current}
use project_secure_chat.World.Members.{In}
use project_secure_chat.World.Keeps.{put_at-same, put_at-here}
use project_secure_chat.World.Consistent.{Consistent, members_of}
use project_secure_chat.World.Membership.{Nameable}
use project_secure_chat.World.Entering.{leave_any}

-- deleteSmartPointer and m_sessions.erase(itr)
unfoldable pub forget : ℕ → ℕ → World → World
forget id p w = record (set_session p (record (w.sessions p) { has_this = false }) w) {
  session_map = erase id w.session_map;
}

-- `if (sChan.get())`: the session's own pointer to the channel is not reset.
removed_from : TinyXml → ℕ → Option ℕ → World → Result World
removed_from x p none w = ok w
removed_from x p (some c) w = remove_session x c (w.sessions p).id w

-- `id` is the number under which the map has the session.
unfoldable pub end_session : TinyXml → ℕ → ℕ → World → Result World
unfolding removed_from
end_session x id p w = do w1 ← removed_from x p (w.sessions p).channel w; ok (forget id p w1)

-- FindSession by number, which QueueRecive uses.
unfoldable pub find_session_by_id : ℕ → World → Option ℕ
find_session_by_id id w = find id w.session_map

close_found : Option ℕ → World → World
close_found none w = w
close_found (some p) w = set_session p (record (w.sessions p) { connected = false }) w

-- SessionManager::RemoveSession closes the socket.
unfoldable pub remove_session_by_id : ℕ → World → World
unfolding close_found
remove_session_by_id id w = close_found (find id w.session_map) w

-- GetIdList
unfoldable pub id_list : World → List ℕ
id_list w = map (λ e. e.0) w.session_map

-- Who has its own pointer afterwards had it before.
forget_alive :
    (p q : ℕ) (w : World)
    → (put_at p (record (w.sessions p) { has_this = false }) w.sessions q).has_this ≡ true
    → (w.sessions q).has_this ≡ true
forget_alive p q w h = elim (Bool-cases (q == p)) [
  | inl e ↦ let wrong : false ≡ true = rw e at h in cc
  | inr e ↦ rw e at h
]

forget-Consistent :
    (id p : ℕ) (w : World)
    → Consistent w
    → (w.sessions p).channel ≡ none
    → Consistent (forget id p w)
unfolding forget
forget-Consistent id p w v h =
    let gone : Session = record (w.sessions p) { has_this = false } in
    let ids = put_at-same (λ (s : Session). s.id) p gone w.sessions refl in
    let channels = put_at-same (λ (s : Session). s.channel) p gone w.sessions refl in
    record {
      entry_agrees = λ c k q i. let (a, b) = v.entry_agrees c k q i in (ids q ∙ a, channels q ∙ b);
      has_entry = λ c q e.
          subst (λ k. In k q (members_of w c)) (sym (ids q))
            (v.has_entry c q (sym (channels q) ∙ e));
      keys = v.keys;
      alive = λ c q e. still_alive c q (sym (channels q) ∙ e);
      one_each = λ q r a b e.
          v.one_each q r (forget_alive p q w a) (forget_alive p r w b) (sym (ids q) ∙ e ∙ ids r);
      allocated = λ c q e. v.allocated c q (sym (channels q) ∙ e);
      named = v.named;
    }
  where
    still_alive :
        (c q : ℕ)
        → (w.sessions q).channel ≡ some c
        → (put_at p (record (w.sessions p) { has_this = false }) w.sessions q).has_this ≡ true
    still_alive c q e = elim (Bool-cases (q == p)) [
      | inl same ↦
          let at : (w.sessions p).channel ≡ some c =
            subst (λ r. (w.sessions r).channel ≡ some c) ((==_iff q p).0 same) e in
          absurd (cc (at, h))
      | inr other ↦ rw other (v.alive c q e)
    ]

with_sessions :
    (w : World) (f : ℕ → Session) → ((q : ℕ) → f q ≡ w.sessions q) → record w { sessions = f } ≡ w
with_sessions w f e = ap (λ g. record w { sessions = g }) (fun_ext e)

put_back : (p : ℕ) (s : Session) (f : ℕ → Session) → s ≡ f p → (q : ℕ) → put_at p s f q ≡ f q
put_back p s f e q = elim (Bool-cases (q == p)) [
  | inl h ↦ rw h (e ∙ ap f (sym ((==_iff q p).0 h)))
  | inr h ↦ rw h
]

still_none : (p : ℕ) (w : World) → (w.sessions p).channel ≡ none → set_channel p none w ≡ w
unfolding set_channel
still_none p w h =
    with_sessions w _
      (put_back p _ w.sessions (sym (ap (λ c. record (w.sessions p) { channel = c }) h)))

Result-cases : {A : Type 0} (r : Result A) → ((a : A) × (r ≡ ok a)) ⊎ ((e : Error) × (r ≡ err e))
Result-cases (ok a) = inl (a, refl)
Result-cases (err e) = inr (e, refl)

removed_lem :
    (x : TinyXml) (p : ℕ) (o : Option ℕ) (w : World)
    → Consistent w
    → (w.sessions p).channel ≡ o
    → Nameable w p
    → (w1 : World) × (removed_from x p o w ≡ ok w1)
      × Consistent (set_channel p none w1)
      × (((set_channel p none w1).sessions p).channel ≡ none)
unfolding removed_from leave_current set_channel
removed_lem x p none w v h n =
    let same = sym (still_none p w h) in
    (w, refl, subst Consistent same v, subst (λ (u : World). (u.sessions p).channel ≡ none) same h)
removed_lem x p (some c) w v h n =
    let (w', e, out) = leave_any x p (some c) w v h n in
    elim (Result-cases (remove_session x c (w.sessions p).id w)) [
      | inr (er, f) ↦ absurd (err_not _ _ (rw (f) at e))
      | inl (w1, f) ↦
          let same : set_channel p none w1 ≡ w' = ok_injective _ _ (rw f at e) in
          (
            w1,
            f,
            subst Consistent (sym same) out.consistent,
            subst (λ (u : World). (u.sessions p).channel ≡ none) (sym same) out.in_none,
          )
    ]

-- The two writes to the session's object can change places.
freed_forget :
    (id p : ℕ) (w : World) → set_channel p none (forget id p w) ≡ forget id p (set_channel p none w)
unfolding set_channel forget
freed_forget id p w =
    ap (λ f. record w { sessions = f; session_map = erase id w.session_map })
      (fun_ext (λ q. elim (Bool-cases (q == p)) [
        | inl h ↦ rw (h, (==_iff p p).1 refl) refl
        | inr h ↦ rw h refl
      ]))

-- A session of a consistent world that ends, whose name fits an update: the steps succeed; the session
-- has no pointer of its own any more and no channel has it as a member. Its object keeps its pointer to the channel, so that the
-- world is consistent again once the object is gone, which is here that this pointer is.
pub end_session_lem :
    (x : TinyXml) (id p : ℕ) (w : World)
    → Consistent w
    → Nameable w p
    → (w' : World) × (end_session x id p w ≡ ok w')
      × ((w'.sessions p).has_this ≡ false)
      × ((c k : ℕ) → ¬ In k p (members_of w' c))
      × Consistent (set_channel p none w')
unfolding end_session forget set_channel
end_session_lem x id p w v n =
    let (w1, e, v1, out) = removed_lem x p (w.sessions p).channel w v refl n in
    let w' = forget id p w1 in
    let here = put_at-here p (record (w1.sessions p) { has_this = false }) w1.sessions in
    let v2 = forget-Consistent id p (set_channel p none w1) v1 out in
    let v' = subst Consistent (sym (freed_forget id p w1)) v2 in
    let outside = put_at-here p (record (w'.sessions p) { channel = none }) w'.sessions in
    (
      w',
      rw e refl,
      ap (λ s. s.has_this) here,
      λ c k i. absurd (cc ((v'.entry_agrees c k p i).1, ap (λ s. s.channel) outside)),
      v',
    )
