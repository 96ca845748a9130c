-- ===== src/World/Creating.antt =====
-- src/server/session/session.cpp and src/server/channel/channel-manager.cpp: HandleCreateChannel.
use project_secure_chat.Base.{
  ℕ, ◌≡◌, ◌⊎◌, inl, inr, Bool, true, false, none, some, Option-cases, Bool-cases, codes, arith,
}
use project_secure_chat.Base.Result.{ok}
use project_secure_chat.Buffer.Defs.{ByteBuffer, bytes_eq}
use project_secure_chat.Buffer.Append.{IsValid}
use project_secure_chat.Buffer.Text.{before_zero, read_text-Gives}
use project_secure_chat.Buffer.Read.{unread}
use project_secure_chat.Xml.Defs.{TinyXml}
use project_secure_chat.World.Heap.{World}
use project_secure_chat.World.Channel.{find_channel, create_channel, new_channel, send_sys_message}
use project_secure_chat.World.Handlers.{handle_create_channel, formatted}
use project_secure_chat.World.Keeps.{Keeps, send_sys_message-Keeps}
use project_secure_chat.World.Consistent.{Consistent, Keeps-Consistent}
use project_secure_chat.World.Attach.{new_channel-Consistent}
use project_secure_chat.World.Membership.{Nameable}
use project_secure_chat.World.Joining.{asked_name}
use project_secure_chat.World.Entering.{enter_lem}

-- HandleCreateChannel, for a session that has its own pointer and a name that fits an update, in a
-- consistent world: it succeeds and keeps the invariant. If the name is not "Default" and no channel
-- is found under it, the session is in a new channel afterwards; otherwise every channel keeps its
-- members and every session its channel.
pub create_lem :
    (x : TinyXml) (be : Bool) (p : ℕ) (packet : ByteBuffer) (w : World)
    → Consistent w
    → (w.sessions p).has_this ≡ true
    → Nameable w p
    → IsValid packet
    → (w' : World) × (handle_create_channel x be p packet w ≡ ok w')
      × Consistent w'
      × (((bytes_eq (asked_name packet) (codes "Default") ≡ false)
            × (find_channel (asked_name packet) w ≡ none)
            × ((w'.sessions p).channel ≡ some w.channel_count))
          ⊎ (((bytes_eq (asked_name packet) (codes "Default") ≡ true)
                ⊎ ((c : ℕ) × (find_channel (asked_name packet) w ≡ some c)))
              × Keeps w w'))
unfolding handle_create_channel create_channel
create_lem x be p packet w v live n ok_packet =
    let g1 = read_text-Gives be packet ok_packet in
    let g2 = read_text-Gives be g1.after g1.valid in
    let name = asked_name packet in
    let m = codes "Channel already exists" in
    let k = send_sys_message-Keeps m p w in
    elim (Bool-cases (bytes_eq name (codes "Default"))) [
      | inl d ↦ (
        send_sys_message m p w,
        rw (g1.gives, g2.gives, d),
        Keeps-Consistent w (send_sys_message m p w) k v,
        inr (inl d, k),
      )
      | inr d ↦ elim (Option-cases (find_channel name w)) [
        | inr (c, e) ↦ (
          send_sys_message m p w,
          rw (g1.gives, g2.gives, d, e),
          Keeps-Consistent w (send_sys_message m p w) k v,
          inr (inr (c, e), k),
        )
        | inl e ↦
            let pass = before_zero (unread g1.after) in
            let (w', done, inside) =
              enter_lem x p w.channel_count (formatted (codes "Creating new channel: ") name)
                (new_channel name pass w) (new_channel-Consistent name pass w v) live n
                (omega arith) in
            (
              w',
              rw (g1.gives, g2.gives, d, e) done,
              inside.consistent,
              inl (d, e, inside.in_channel),
            )
      ]
    ]
