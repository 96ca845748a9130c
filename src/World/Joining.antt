-- ===== src/World/Joining.antt =====
-- src/server/session/session.cpp: the handlers that join, create and leave channels keep the
-- invariant, and where they leave the session.
use project_secure_chat.Base.{
  ℕ, ◌≡◌, sym, ap, ◌∙◌, ◌⊎◌, inl, inr, Bool, true, false, none, some, List, Option-cases,
  Bool-cases, codes, arith,
}
use mathlib.Core.Path.{subst}
use project_secure_chat.Base.Result.{ok}
use project_secure_chat.Buffer.Defs.{ByteBuffer}
use project_secure_chat.Buffer.Append.{IsValid}
use project_secure_chat.Buffer.Text.{before_zero, after_zero, read_text-Gives}
use project_secure_chat.Buffer.Read.{unread}
use project_secure_chat.Xml.Defs.{TinyXml}
use project_secure_chat.World.Heap.{World}
use project_secure_chat.World.Channel.{can_enter, find_channel, send_sys_message}
use project_secure_chat.World.Handlers.{handle_join_channel, handle_leave_channel, formatted}
use project_secure_chat.World.Keeps.{Keeps, send_sys_message-Keeps}
use project_secure_chat.World.Consistent.{Consistent, Keeps-Consistent, some-inj}
use project_secure_chat.World.Membership.{Nameable}
use project_secure_chat.World.Entering.{leave_any, enter_lem, found_created}

-- The two texts of a packet that asks for a channel.
abbrev pub asked_name : ByteBuffer → List ℕ
asked_name packet = before_zero (unread packet)

abbrev pub asked_pass : ByteBuffer → List ℕ
asked_pass packet = before_zero (after_zero (unread packet))

-- HandleJoinChannel, for a session that has its own pointer and a name that fits an update, in a
-- consistent world: it succeeds and keeps the invariant. If the packet names a channel and its
-- password, the session is in that channel afterwards, and out of the one it was in; if not, every
-- channel keeps its members and every session its channel.
pub join_lem :
    (x : TinyXml) (be : Bool) (p : ℕ) (packet : ByteBuffer) (w : World)
    → Consistent w
    → (w.sessions p).has_this ≡ true
    → Nameable w p
    → IsValid packet
    → (w' : World) × (handle_join_channel x be p packet w ≡ ok w')
      × Consistent w'
      × (((c : ℕ) × (find_channel (asked_name packet) w ≡ some c)
            × (can_enter (asked_pass packet) (w.channels c) ≡ true)
            × ((w'.sessions p).channel ≡ some c))
          ⊎ (((c : ℕ)
                → find_channel (asked_name packet) w ≡ some c
                → can_enter (asked_pass packet) (w.channels c) ≡ false)
              × Keeps w w'))
unfolding handle_join_channel
join_lem x be p packet w v live n ok_packet =
    let g1 = read_text-Gives be packet ok_packet in
    let g2 = read_text-Gives be g1.after g1.valid in
    let name = asked_name packet in
    let second : before_zero (unread g1.after) ≡ asked_pass packet = ap before_zero g1.left in
    elim (Option-cases (find_channel name w)) [
      | inl e ↦
          let m = codes "Channel does not exists" in
          let k = send_sys_message-Keeps m p w in
          (
            send_sys_message m p w,
            rw (g1.gives, g2.gives, e),
            Keeps-Consistent w (send_sys_message m p w) k v,
            inr ((λ c h. absurd (grind arith)), k),
          )
      | inr (c, e) ↦ elim (Bool-cases (can_enter (asked_pass packet) (w.channels c))) [
        | inl f ↦
            let (w', done, inside) =
              enter_lem x p c (formatted (codes "Joined channel: ") name) w v live n
                (found_created name c w v e) in
            (
              w',
              rw (g1.gives, g2.gives, e, second, f) done,
              inside.consistent,
              inl (c, e, f, inside.in_channel),
            )
        | inr f ↦
            let m = codes "Wrong password" in
            let k = send_sys_message-Keeps m p w in
            (
              send_sys_message m p w,
              rw (g1.gives, g2.gives, e, second, f),
              Keeps-Consistent w (send_sys_message m p w) k v,
              inr (
                (λ d h.
                    subst (λ d. can_enter (asked_pass packet) (w.channels d) ≡ false)
                      (some-inj (sym e ∙ h)) f),
                k,
              ),
            )
      ]
    ]

-- HandleLeaveChannel, for a session whose name fits an update, in a consistent world: it succeeds,
-- keeps the invariant, and the session is in no channel afterwards.
pub leave_lem :
    (x : TinyXml) (p : ℕ) (w : World)
    → Consistent w
    → Nameable w p
    → (w' : World) × (handle_leave_channel x p w ≡ ok w')
      × Consistent w'
      × ((w'.sessions p).channel ≡ none)
unfolding handle_leave_channel
leave_lem x p w v n = elim (Option-cases (w.sessions p).channel) [
  | inl e ↦
      let m = codes "You aren't in any channel" in
      let k = send_sys_message-Keeps m p w in
      (
        send_sys_message m p w,
        rw e,
        Keeps-Consistent w (send_sys_message m p w) k v,
        k.channel_of p ∙ e,
      )
  | inr (c, e) ↦
      let m = codes "Channel left" in
      let (w1, done, out) = leave_any x p (some c) w v e n in
      let k = send_sys_message-Keeps m p w1 in
      (
        send_sys_message m p w1,
        rw (e, done),
        Keeps-Consistent w1 (send_sys_message m p w1) k out.consistent,
        k.channel_of p ∙ out.in_none,
      )
]
