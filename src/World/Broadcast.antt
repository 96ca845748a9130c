-- ===== src/World/Broadcast.antt =====
-- src/server/session/session.cpp: HandleMessage and HandleWhisp.
use project_secure_chat.Base.{
  ℕ, ◌≡◌, ◌≢◌, ap, ◌⊎◌, inl, inr, Bool, true, some, List, [], ◌∷◌, ◌++◌, Bool-cases, ◌==◌, arith,
}
use project_secure_chat.Base.Result.{ok}
use project_secure_chat.Buffer.Defs.{ByteBuffer}
use project_secure_chat.Buffer.Append.{IsValid}
use project_secure_chat.Buffer.Read.{unread}
use project_secure_chat.Buffer.Text.{before_zero, after_zero, NonZero, read_text-Gives}
use project_secure_chat.Opcode.Defs.{smsg_message, smsg_whisp}
use project_secure_chat.Xml.Defs.{TinyXml, read_message, set_username_to_message}
use project_secure_chat.Xml.Messages.{Encodable, ReadsBack, IsMessage, set_username_lem}
use project_secure_chat.World.Heap.{World, Message, text_field, send_packet}
use project_secure_chat.World.Channel.{send_to_all_but_one}
use project_secure_chat.World.Handlers.{handle_message, broadcast, handle_whisp, find_session}
use project_secure_chat.World.Keeps.{Keeps, send_to_all_but_one-Keeps}
use project_secure_chat.World.Consistent.{Consistent, members_of}
use project_secure_chat.World.Delivery.{
  queue, broadcast_there, broadcast_here, sent_here, sent_there,
}

pub before_zero-NonZero : (bs : List ℕ) → NonZero (before_zero bs)
unfolding before_zero
before_zero-NonZero [] = tt
before_zero-NonZero (c ∷ bs) = elim (Bool-cases (c == 0)) [
  | inl e ↦ rw e tt
  | inr e ↦ rw e ((λ h. grind arith), before_zero-NonZero bs)
]

-- A text as it is sent.
abbrev pub sends : ℕ → List ℕ → Message
sends opcode t = record { opcode = opcode; fields = text_field t ∷ [] }

-- A name and a content that a message can carry.
pub record Carries (x : TinyXml) (name content : List ℕ) : Type 0 where
  pub name_fits : Encodable name
  pub content_fits : Encodable content
  pub name_ends : NonZero name
  pub content_ends : NonZero content
  pub reads_back : ReadsBack x (some name) content

pub relabelled :
    (x : TinyXml) (bs name content : List ℕ) (out : List ℕ × List ℕ)
    → IsMessage x (before_zero bs) content
    → Carries x name content
    → (t : List ℕ) × (set_username_to_message x (before_zero bs) name ≡ ok t)
      × (read_message x t out ≡ ok (name, content))
relabelled x bs name content out is_message h =
    set_username_lem x (before_zero bs) name content out is_message h.name_fits h.content_fits
      (before_zero-NonZero bs) h.name_ends h.content_ends h.reads_back

-- HandleMessage, once the text `t` is made of the packet.
pub delivered_lem :
    (x : TinyXml) (be : Bool) (p c : ℕ) (packet : ByteBuffer) (w : World) (t : List ℕ)
    → Consistent w
    → (w.sessions p).channel ≡ some c
    → IsValid packet
    → set_username_to_message x (before_zero (unread packet)) (w.sessions p).username ≡ ok t
    → (w' : World) × (handle_message x be p packet w ≡ ok w')
      × ((q : ℕ)
          → q ≢ p
          → (w.sessions q).channel ≡ some c
          → (w.sessions q).connected ≡ true
          → queue w' q ≡ queue w q ++ sends smsg_message t ∷ [])
      × ((q : ℕ) → (q ≡ p) ⊎ ((w.sessions q).channel ≢ some c) → w'.sessions q ≡ w.sessions q)
      × Keeps w w'
unfolding handle_message broadcast
delivered_lem x be p c packet w t v h ok_packet set =
    let g = read_text-Gives be packet ok_packet in
    let m = sends smsg_message t in
    let id = (w.sessions p).id in
    let ms = members_of w c in
    (
      send_to_all_but_one m id ms w,
      rw (h, g.gives, set),
      (λ q ne e online.
          broadcast_here m id ms w (w.sessions q).id q (v.keys c)
            (λ k r i. (v.entry_agrees c k r i).0) (v.has_entry c q e)
            (λ same. ne (v.one_each q p (v.alive c q e) (v.alive c p h) same)) online
            (v.alive c q e)),
      (λ q why. broadcast_there m id ms w q (λ k i. elim why [
        | inl e ↦ ap (λ r. (w.sessions r).id) e
        | inr other ↦ absurd (other (v.entry_agrees c k q i).1)
      ])),
      send_to_all_but_one-Keeps m id ms w,
    )

-- HandleMessage, for a session in a channel of a consistent world and a packet that holds a message,
-- where the user's name and the content can be encoded, hold no zero byte and are read back by
-- TinyXML: it succeeds, and every other connected session of the channel has exactly one more packet to
-- send, a message that reads as this user's with the content of the packet, whatever name that
-- claimed. The session itself and the sessions outside the channel are as they were, and no session
-- moves.
pub message_lem :
    (x : TinyXml) (be : Bool) (p c : ℕ) (packet : ByteBuffer) (w : World) (content : List ℕ)
    (out : List ℕ × List ℕ)
    → Consistent w
    → (w.sessions p).channel ≡ some c
    → IsValid packet
    → IsMessage x (before_zero (unread packet)) content
    → Carries x (w.sessions p).username content
    → (w' : World) × (t : List ℕ) × (handle_message x be p packet w ≡ ok w')
      × (read_message x t out ≡ ok ((w.sessions p).username, content))
      × ((q : ℕ)
          → q ≢ p
          → (w.sessions q).channel ≡ some c
          → (w.sessions q).connected ≡ true
          → queue w' q ≡ queue w q ++ sends smsg_message t ∷ [])
      × ((q : ℕ) → (q ≡ p) ⊎ ((w.sessions q).channel ≢ some c) → w'.sessions q ≡ w.sessions q)
      × Keeps w w'
message_lem x be p c packet w content out v h ok_packet is_message carries =
    let (t, set, reads) =
      relabelled x (unread packet) (w.sessions p).username content out is_message carries in
    let (w', e, here, there, k) = delivered_lem x be p c packet w t v h ok_packet set in
    (w', t, e, reads, here, there, k)

-- HandleWhisp, for a packet with the name of a session that is found and a message, where the
-- user's name and the content can be encoded, hold no zero byte and are read back by TinyXML: it
-- succeeds, and that session, if it is connected and has its own pointer, has exactly one more packet to send,
-- a message that reads as this user's with the content of the packet, whatever name that claimed.
-- Every other session is as it was.
pub whisp_lem :
    (x : TinyXml) (be : Bool) (p q : ℕ) (packet : ByteBuffer) (w : World) (content : List ℕ)
    (out : List ℕ × List ℕ)
    → IsValid packet
    → find_session (before_zero (unread packet)) w.session_map w ≡ some q
    → IsMessage x (before_zero (after_zero (unread packet))) content
    → Carries x (w.sessions p).username content
    → (w' : World) × (t : List ℕ) × (handle_whisp x be p packet w ≡ ok w')
      × (read_message x t out ≡ ok ((w.sessions p).username, content))
      × ((w.sessions q).connected ≡ true
          → (w.sessions q).has_this ≡ true
          → queue w' q ≡ queue w q ++ sends smsg_whisp t ∷ [])
      × ((r : ℕ) → r ≢ q → w'.sessions r ≡ w.sessions r)
unfolding handle_whisp
whisp_lem x be p q packet w content out ok_packet found is_message carries =
    let g = read_text-Gives be packet ok_packet in
    let g2 = read_text-Gives be g.after g.valid in
    let (t, set, reads) =
      relabelled x (after_zero (unread packet)) (w.sessions p).username content out is_message
        carries in
    let m = sends smsg_whisp t in
    let second : before_zero (unread g.after) ≡ before_zero (after_zero (unread packet)) =
      ap before_zero g.left in
    (
      send_packet m q w,
      t,
      rw (g.gives, found, g2.gives, second, set),
      reads,
      sent_here m q w,
      sent_there m q w,
    )
