-- ===== src/World/Membership.antt =====
-- src/server/session/session.cpp: the handlers that join, create and leave channels keep the
-- invariant, and where they leave the session.
use project_secure_chat.Base.{
  ℕ, ◌≡◌, ap, ◌∙◌, inl, inr, none, some, List, [], ◌∷◌, ◌++◌, Option-cases, codes, arith,
}
use project_secure_chat.Base.Result.{ok}
use project_secure_chat.Buffer.Text.{before_zero}
use project_secure_chat.Opcode.Defs.{smsg_join_channel, smsg_leave_channel}
use project_secure_chat.Xml.Defs.{TinyXml, build_update, update_doc}
use project_secure_chat.Xml.Messages.{Encodable, encoded}
use project_secure_chat.World.Heap.{
  World, Message, text_field, erase, find, insert, send_packet, set_channel,
}
use project_secure_chat.World.Channel.{
  send_to_all_but_one, remove_session, add_session, users_list, empty_list, set_members,
}
use project_secure_chat.World.Handlers.{leave_current}
use project_secure_chat.World.Members.{find-In, In-find}
use project_secure_chat.World.Keeps.{
  Keeps, Keeps-trans, send_packet-Keeps, send_to_all_but_one-Keeps, set_channel-Keeps,
}
use project_secure_chat.World.Consistent.{Consistent, members_of, detached}

-- A session whose name fits an update.
abbrev pub Nameable : World → ℕ → Type 0
Nameable w p = Encodable (before_zero (w.sessions p).username)

update_built :
    (x : TinyXml) (name status : List ℕ)
    → Encodable name
    → Encodable status
    → (t : List ℕ) × (build_update x name status ≡ ok t)
unfolding build_update
update_built x name status hn hs =
    let (n, en, dn) = encoded name hn in
    let (s, es, ds) = encoded status hs in (x.print (update_doc n s), rw (en, es))

find_self :
    (c p : ℕ) (w : World)
    → Consistent w
    → (w.sessions p).channel ≡ some c
    → find (w.sessions p).id (members_of w c) ≡ some p
find_self c p w v h = elim (Option-cases (find (w.sessions p).id (members_of w c))) [
  | inl e ↦ absurd (In-find (w.sessions p).id p (members_of w c) (v.has_entry c p h) e)
  | inr (q, e) ↦
      let (a, b) =
        v.entry_agrees c (w.sessions p).id q (find-In (w.sessions p).id q (members_of w c) e) in
      e ∙ ap some (v.one_each q p (v.alive c q b) (v.alive c p h) a)
]

pub leave_current_lem :
    (x : TinyXml) (p c : ℕ) (w : World)
    → Consistent w
    → (w.sessions p).channel ≡ some c
    → Nameable w p
    → (w' : World) × (leave_current x p (some c) w ≡ ok w') × Keeps (detached c p w) w'
unfolding leave_current remove_session
leave_current_lem x p c w v h n =
    let (t, built) =
      update_built x (before_zero (w.sessions p).username) (codes "leave") n
        (record { bytes = omega arith; short = omega arith }) in
    let id = (w.sessions p).id in
    let w1 = set_members c (erase id (members_of w c)) w in
    let left : Message = record { opcode = smsg_leave_channel; fields = text_field t ∷ [] } in
    let w2 = send_to_all_but_one left id (members_of w1 c) w1 in
    (
      set_channel p none (send_packet empty_list p w2),
      rw (find_self c p w v h, built),
      set_channel-Keeps w1 (send_packet empty_list p w2) p none (
          Keeps-trans w1 w2 (send_packet empty_list p w2)
            (send_to_all_but_one-Keeps left id (members_of w1 c) w1)
            (send_packet-Keeps empty_list p w2)),
    )

pub add_session_lem :
    (x : TinyXml) (c p : ℕ) (w : World)
    → find (w.sessions p).id (members_of w c) ≡ none
    → Nameable w p
    → (w' : World) × (add_session x c p w ≡ ok w')
      × Keeps (set_members c (members_of w c ++ ((w.sessions p).id, p) ∷ []) w) w'
unfolding add_session insert
add_session_lem x c p w h n =
    let (t, built) =
      update_built x (before_zero (w.sessions p).username) (codes "join") n
        (record { bytes = omega arith; short = omega arith }) in
    let id = (w.sessions p).id in
    let w1 = set_members c (members_of w c ++ (id, p) ∷ []) w in
    let joined : Message = record { opcode = smsg_join_channel; fields = text_field t ∷ [] } in
    let w2 = send_to_all_but_one joined id (members_of w1 c) w1 in
    (
      send_packet (users_list w2 c) p w2,
      rw (h, built),
      Keeps-trans w1 w2 (send_packet (users_list w2 c) p w2)
          (send_to_all_but_one-Keeps joined id (members_of w1 c) w1)
          (send_packet-Keeps (users_list w2 c) p w2),
    )
