-- ===== src/World/Entering.antt =====
-- src/server/session/session.cpp and src/server/channel/channel-manager.cpp: how a session goes out of
-- a channel and into one, and JoinDefaultChannel.
use project_secure_chat.Base.{
  ℕ, ◌<◌, ◌≡◌, refl, sym, ap, ◌∙◌, ◌⊎◌, inl, inr, true, Option, none, some, List, [], ◌∷◌, ◌++◌,
  Option-cases, Bool-cases, codes, arith,
}
use mathlib.Core.Path.{subst}
use project_secure_chat.Base.Result.{ok}
use project_secure_chat.Buffer.Defs.{bytes_eq}
use project_secure_chat.Buffer.Text.{before_zero}
use project_secure_chat.Xml.Defs.{TinyXml}
use project_secure_chat.Xml.Messages.{Encodable}
use project_secure_chat.World.Heap.{World, set_channel}
use project_secure_chat.World.Channel.{
  add_session, new_channel, find_channel, set_members, send_sys_message,
}
use project_secure_chat.World.Handlers.{join_default_channel, leave_current, enter}
use project_secure_chat.World.Keeps.{send_sys_message-Keeps, set_channel-Keeps, put_at-here}
use project_secure_chat.World.Consistent.{
  Consistent, members_of, Keeps-Consistent, detached, attached, detached-Consistent,
}
use project_secure_chat.World.Attach.{
  new_channel-Consistent, not_found, attached-Consistent, attached_channel,
}
use project_secure_chat.World.Membership.{Nameable, leave_current_lem, add_session_lem}

-- What holds once a session is out of its channel.
pub record Outside (p : ℕ) (w w' : World) : Type 0 where
  pub consistent : Consistent w'
  pub in_none : (w'.sessions p).channel ≡ none
  pub this_eq : (w'.sessions p).has_this ≡ (w.sessions p).has_this
  pub username_eq : (w'.sessions p).username ≡ (w.sessions p).username
  pub count_eq : w'.channel_count ≡ w.channel_count

pub leave_any :
    (x : TinyXml) (p : ℕ) (o : Option ℕ) (w : World)
    → Consistent w
    → (w.sessions p).channel ≡ o
    → Nameable w p
    → (w' : World) × (leave_current x p o w ≡ ok w') × Outside p w w'
unfolding leave_current set_channel
leave_any x p none w v h n = (
  w,
  refl,
  record { consistent = v; in_none = h; this_eq = refl; username_eq = refl; count_eq = refl },
)
leave_any x p (some c) w v h n =
    let (w', e, k) = leave_current_lem x p c w v h n in
    let here = put_at-here p (record (w.sessions p) { channel = none }) w.sessions in
    (
      w',
      e,
      record {
        consistent = Keeps-Consistent (detached c p w) w' k (detached-Consistent c p w v h);
        in_none = k.channel_of p ∙ ap (λ s. s.channel) here;
        this_eq = k.this_of p ∙ ap (λ s. s.has_this) here;
        username_eq = k.username_of p ∙ ap (λ s. s.username) here;
        count_eq = k.count_eq;
      },
    )

-- What holds once a session is in the channel `c`.
pub record Inside (p c : ℕ) (w : World) : Type 0 where
  pub consistent : Consistent w
  pub in_channel : (w.sessions p).channel ≡ some c

-- The way into the channel `c`, from outside.
pub arrive_lem :
    (x : TinyXml) (p c : ℕ) (notice : List ℕ) (w : World)
    → Consistent w
    → (w.sessions p).channel ≡ none
    → (w.sessions p).has_this ≡ true
    → Nameable w p
    → c < w.channel_count
    → (w2 : World) × (add_session x c p w ≡ ok w2)
      × Inside p c (send_sys_message notice p (set_channel p (some c) w2))
arrive_lem x p c notice w v outside live n lt =
    let (w2, e2, k) = add_session_lem x c p w (not_found c p w v outside live lt) n in
    let w3 = set_channel p (some c) w2 in
    let w4 = send_sys_message notice p w3 in
    let w1 = set_members c (members_of w c ++ ((w.sessions p).id, p) ∷ []) w in
    let k3 = set_channel-Keeps w1 w2 p (some c) k in
    let k4 = send_sys_message-Keeps notice p w3 in
    (
      w2,
      e2,
      record {
        consistent =
            Keeps-Consistent w3 w4 k4 (
              Keeps-Consistent (attached c p w) w3 k3
                (attached-Consistent c p w v outside live lt));
        in_channel = k4.channel_of p ∙ k3.channel_of p ∙ attached_channel c p w v outside live lt;
      },
    )

pub enter_lem :
    (x : TinyXml) (p c : ℕ) (notice : List ℕ) (w : World)
    → Consistent w
    → (w.sessions p).has_this ≡ true
    → Nameable w p
    → c < w.channel_count
    → (w' : World) × (enter x p c notice w ≡ ok w') × Inside p c w'
unfolding enter
enter_lem x p c notice w v live n lt =
    let (w1, e1, out) = leave_any x p (w.sessions p).channel w v refl n in
    let (w2, e2, inside) =
      arrive_lem x p c notice w1 out.consistent out.in_none (out.this_eq ∙ live)
        (subst (λ u. Encodable (before_zero u)) (sym out.username_eq) n)
        (omega (arith, out.count_eq)) in
    (send_sys_message notice p (set_channel p (some c) w2), rw (e1, e2), inside)

pub found_created :
    (name : List ℕ) (c : ℕ) (w : World)
    → Consistent w
    → find_channel name w ≡ some c
    → c < w.channel_count
unfolding find_channel
found_created name c w v h = elim (Bool-cases (bytes_eq name [])) [
  | inl e ↦ absurd (grind arith)
  | inr e ↦ v.named name c (rw (sym h, e))
]

-- JoinDefaultChannel, for a session in no channel that has its own pointer and a name that fits an
-- update, in a consistent world: it succeeds, keeps the invariant and leaves the session in a channel,
-- which is the one of the name "Default", if it was there, and else a new one.
pub default_lem :
    (x : TinyXml) (pass : List ℕ) (p : ℕ) (w : World)
    → Consistent w
    → (w.sessions p).channel ≡ none
    → (w.sessions p).has_this ≡ true
    → Nameable w p
    → (w' : World) × (c : ℕ) × (join_default_channel x pass p w ≡ ok w')
      × Consistent w'
      × ((w'.sessions p).channel ≡ some c)
      × ((find_channel (codes "Default") w ≡ some c)
          ⊎ ((find_channel (codes "Default") w ≡ none) × (c ≡ w.channel_count)))
unfolding join_default_channel
default_lem x pass p w v outside live n =
    let m = codes "Default channel joined" in
    elim (Option-cases (find_channel (codes "Default") w)) [
      | inl e ↦
          let c = w.channel_count in
          let w1 = new_channel (codes "Default") pass w in
          let (w2, e2, inside) =
            arrive_lem x p c m w1 (new_channel-Consistent (codes "Default") pass w v) outside live n
              (omega arith) in
          (
            send_sys_message m p (set_channel p (some c) w2),
            c,
            rw (e, e2),
            inside.consistent,
            inside.in_channel,
            inr (e, refl),
          )
      | inr (c, e) ↦
          let (w2, e2, inside) =
            arrive_lem x p c m w v outside live n (found_created (codes "Default") c w v e) in
          (
            send_sys_message m p (set_channel p (some c) w2),
            c,
            rw (e, e2),
            inside.consistent,
            inside.in_channel,
            inl e,
          )
    ]
