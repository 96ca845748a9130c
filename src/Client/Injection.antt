-- ===== src/Client/Injection.antt =====
-- src/server/session/session.cpp and src/client/session/session.cpp: HandleListChannel of the server, and
-- HandleServerMessage of the client that asked.
use mathlib.Core.List.{append_assoc}
use mathlib.Core.Path.{subst}
use project_secure_chat.Base.{
  ℕ, ◌≡◌, ◌≢◌, refl, ap, ◌∙◌, Bool, true, false, not, ◌&&◌, ◌==◌, arith, List, [], ◌∷◌, ◌++◌, ne→==,
  codes, decimal, length, if◌then◌else◌,
}
use project_secure_chat.Base.Result.{err, out_of_bounds}
use project_secure_chat.Buffer.Defs.{ByteBuffer}
use project_secure_chat.Buffer.Text.{NonZero, before_zero}
use project_secure_chat.Opcode.Defs.{smsg_system_message}
use project_secure_chat.Xml.Defs.{TinyXml}
use project_secure_chat.World.Heap.{World, text_field}
use project_secure_chat.World.Channel.{send_sys_message, can_enter}
use project_secure_chat.World.Broadcast.{before_zero-NonZero}
use project_secure_chat.World.Delivery.{queue, sent_here}
use project_secure_chat.World.Notices.{
  channel_line, channel_lines, get_channel_list, handle_list_channel,
}
use project_secure_chat.Client.Screen.{Client, Printf}
use project_secure_chat.Client.Session.{handle_server_message}
use project_secure_chat.Client.Formats.{NoPercent, IsPrintf, takes_argument, server_message_lem}

before_zero-append : (a b : List ℕ) → NonZero a → before_zero (a ++ b) ≡ a ++ before_zero b
unfolding before_zero
before_zero-append [] b h = refl
before_zero-append (c ∷ a) b h = rw (ne→== c 0 h.0) (ap (λ t. c ∷ t) (before_zero-append a b h.1))

listed :
    (pass : List ℕ) (w : World) (n : List ℕ) (c : ℕ) (others : List (List ℕ × ℕ))
    (pre post : List ℕ) (d : ℕ)
    → w.names ≡ (n, c) ∷ others
    → (w.channels c).name ≡ pre ++ b'%' ∷ d ∷ post
    → (tail : List ℕ) × (get_channel_list pass w
        ≡ (codes "Channel list:\n " ++ pre) ++ b'%' ∷ d ∷ tail)
unfolding get_channel_list channel_lines channel_line
listed pass w n c others pre post d e f =
    let head = b'%' ∷ d ∷ post in
    let behind =
      codes " ("
      ++ (decimal (length (w.channels c).members)
          ++ (codes ") "
              ++ ((if can_enter pass (w.channels c) then [] else codes "*") ++ codes "\n"))) in
    let lines = channel_lines pass others w in
    (
      (post ++ behind) ++ lines,
      ap (λ ns. codes "Channel list:\n" ++ channel_lines pass ns w) e
          ∙ ap (λ m. codes "Channel list:\n" ++ ((codes " " ++ (m ++ behind)) ++ lines)) f
          ∙ ap (λ m. codes "Channel list:\n " ++ (m ++ lines)) (append_assoc pre head behind)
          ∙ ap (λ m. codes "Channel list:\n " ++ m) (append_assoc pre (head ++ behind) lines),
    )

before_zero_step :
    (d : ℕ) (t : List ℕ) → d ≢ 0 → before_zero (b'%' ∷ d ∷ t) ≡ b'%' ∷ d ∷ before_zero t
unfolding before_zero
before_zero_step d t h = rw (ne→== d 0 h) refl

-- No byte is `k`.
abbrev lacks : ℕ → List ℕ → Bool
lacks k [] = true
lacks k (c ∷ cs) = not (c == k) && lacks k cs

lacks-NonZero : (a pre : List ℕ) → lacks 0 a ≡ true → NonZero pre → NonZero (a ++ pre)
lacks-NonZero [] pre h k = k
lacks-NonZero (c ∷ a) pre h k = (ground arith, lacks-NonZero a pre (ground arith) k)

lacks-NoPercent : (a pre : List ℕ) → lacks b'%' a ≡ true → NoPercent pre → NoPercent (a ++ pre)
lacks-NoPercent [] pre h k = k
lacks-NoPercent (c ∷ a) pre h k = (ground arith, lacks-NoPercent a pre (ground arith) k)

takes_nonzero : (d : ℕ) → takes_argument d ≡ true → d ≢ 0
takes_nonzero d h z =
    let k : false ≡ true = subst (λ d. takes_argument d ≡ true) z h in absurd (cc k)

-- A client that asks for the list of the channels, where the name of the first one has a `%` before
-- a conversion that takes an argument, such as `%s`, gets one more message, and its handler then calls vasprintf with too few
-- arguments, which is undefined. The session is connected and has its own pointer; before the `%`
-- the name has no zero and no `%`; vasprintf is the C standard's.
pub injection_lem :
    (vasprintf : Printf)
    → IsPrintf vasprintf
    → (x : TinyXml) (be : Bool) (now pass : List ℕ) (p : ℕ) (w : World) (n : List ℕ) (c : ℕ)
      (others : List (List ℕ × ℕ)) (pre post : List ℕ) (d : ℕ)
    → (w.sessions p).connected ≡ true
    → (w.sessions p).has_this ≡ true
    → w.names ≡ (n, c) ∷ others
    → (w.channels c).name ≡ pre ++ b'%' ∷ d ∷ post
    → NonZero pre
    → NoPercent pre
    → takes_argument d ≡ true
    → (t : List ℕ) × (queue (handle_list_channel pass p w) p
        ≡ queue w p ++ record { opcode = smsg_system_message; fields = text_field t ∷ [] } ∷ [])
      × ((packet : ByteBuffer) (user : Client)
          → packet.storage ≡ t ++ 0 ∷ []
          → handle_server_message x be now vasprintf packet user ≡ err out_of_bounds)
unfolding handle_list_channel send_sys_message
injection_lem v law x be now pass p w n c others pre post d live this e f nz np takes =
    let (tail, g) = listed pass w n c others pre post d e f in
    let front = codes "Channel list:\n " ++ pre in
    let t = before_zero (get_channel_list pass w) in
    let same : t ≡ front ++ b'%' ∷ d ∷ before_zero tail =
      ap before_zero g
      ∙ before_zero-append front (b'%' ∷ d ∷ tail)
          (lacks-NonZero (codes "Channel list:\n ") pre refl nz)
      ∙ ap (λ r. front ++ r) (before_zero_step d tail (takes_nonzero d takes)) in
    (
      t,
      sent_here _ p w live this,
      λ packet user h.
          (server_message_lem v law x be now t [] packet user
              (before_zero-NonZero (get_channel_list pass w)) h).1
            front (before_zero tail) d same (lacks-NoPercent (codes "Channel list:\n ") pre refl np)
            takes,
    )
