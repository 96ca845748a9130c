-- ===== src/Client/Users.antt =====
-- src/server/channel/channel.cpp and src/client/session/session.cpp: SendUsersList and
-- HandleChannelUsersList, the members of a channel as the server lists them and a client shows them.
use mathlib.Core.List.{append_assoc, append-nil}
use project_secure_chat.Base.{
  ℕ, ◌%◌, ◌^◌, ◌<◌, ◌≡◌, refl, sym, ◌∙◌, Bool, true, List, [], ◌∷◌, ◌++◌, length, map, arith,
}
use project_secure_chat.Base.Result.{ok}
use project_secure_chat.LockQueue.{add}
use project_secure_chat.Buffer.Words.{w32}
use project_secure_chat.Buffer.Defs.{ByteBuffer}
use project_secure_chat.Buffer.Append.{IsValid}
use project_secure_chat.Buffer.Read.{unread}
use project_secure_chat.Buffer.Text.{NonZero}
use project_secure_chat.Buffer.Fields.{Field, value, text, images, value_Gives, text_Gives}
use project_secure_chat.Xml.Defs.{TinyXml}
use project_secure_chat.World.Heap
use project_secure_chat.World.Channel.{users_list}
use project_secure_chat.Client.Screen.{Client, Event, event, send_to_gui, add_message}
use project_secure_chat.Client.Session.{handle_channel_users_list, show_names}

-- The fields of a message of the server, as they are written.
abbrev pub written : List Heap.Field → List Field
written [] = []
written (Heap.text_field t ∷ fs) = text t ∷ written fs
written (Heap.number_field n ∷ fs) = value w32 n ∷ written fs

abbrev pub AllNonZero : List (List ℕ) → Type 0
AllNonZero [] = Unit {0}
AllNonZero (t ∷ ts) = NonZero t × AllNonZero ts

abbrev names_of : Heap.World → List (ℕ × ℕ) → List (List ℕ)
names_of w ms = map (λ m. (w.sessions m.1).username) ms

abbrev texts_of : Heap.World → List (ℕ × ℕ) → List Heap.Field
texts_of w ms = map (λ m. Heap.text_field (w.sessions m.1).username) ms

-- The events that the user interface gets for the names.
abbrev pub entries : List ℕ → List (List ℕ) → List Event
entries now ns = map (λ n. event now [] n b'J' true) ns

record Shown (now : List ℕ) (ns : List (List ℕ)) (n : ℕ) (x : TinyXml) (be : Bool) (b : ByteBuffer)
    (c : Client) : Type 0 where
  after : Client
  shows : show_names x be now n b c ≡ ok after
  events_eq : after.events.items ≡ c.events.items ++ entries now ns
  peer_eq : after.peer ≡ c.peer

shown_lem :
    (x : TinyXml) (be : Bool) (now : List ℕ) (w : Heap.World) (ms : List (ℕ × ℕ)) (b : ByteBuffer)
    (c : Client)
    → AllNonZero (names_of w ms)
    → IsValid b
    → unread b ≡ images be (written (texts_of w ms))
    → Shown now (names_of w ms) (length ms) x be b c
unfolding show_names send_to_gui add_message add
shown_lem x be now w [] b c h v e = record {
  after = c;
  shows = refl;
  events_eq = sym (append-nil c.events.items);
  peer_eq = refl;
}
shown_lem x be now w ((k, p) ∷ ms) b c h v e =
    let name = (w.sessions p).username in
    let rest = images be (written (texts_of w ms)) in
    let g = text_Gives be name rest b h.0 v (e ∙ append_assoc name (0 ∷ []) rest) in
    let r = shown_lem x be now w ms g.after (send_to_gui now name b'J' [] c) h.1 g.valid g.left in
    record {
      after = r.after;
      shows = rw (g.gives) r.shows;
      events_eq =
          r.events_eq
          ∙ append_assoc c.events.items (event now [] name b'J' true ∷ [])
              (entries now (names_of w ms));
      peer_eq = r.peer_eq;
    }

-- The list of a channel's members that the server sends, read by a client, clears the client's list and then shows
-- the members' names, each once and in their order, and nothing else; the names have no zero byte and
-- there are fewer than 2^32 of them.
pub users_lem :
    (x : TinyXml) (be : Bool) (now : List ℕ) (w : Heap.World) (ch : ℕ) (packet : ByteBuffer)
    (c : Client)
    → let ms = (w.channels ch).members in
      AllNonZero (map (λ m. (w.sessions m.1).username) ms)
      → length ms < 2 ^ 32
      → IsValid packet
      → unread packet ≡ images be (written (users_list w ch).fields)
      → (c' : Client) × (handle_channel_users_list x be now packet c ≡ ok c')
        × (c'.events.items
            ≡ c.events.items
              ++ event now [] [] b'L' true ∷ entries now (map (λ m. (w.sessions m.1).username) ms))
        × (c'.peer ≡ c.peer)
unfolding handle_channel_users_list users_list send_to_gui add_message add
users_lem x be now w ch packet c h few v e =
    let ms = (w.channels ch).members in
    let size : length ms % 2 ^ 32 ≡ length ms = omega arith in
    let rest = images be (written (texts_of w ms)) in
    let g = value_Gives be w32 (length ms % 2 ^ 32) rest packet (omega arith) v e in
    let c1 = send_to_gui now [] b'L' [] c in
    let r = shown_lem x be now w ms g.after c1 h g.valid g.left in
    (
      r.after,
      rw (g.gives, size) r.shows,
      r.events_eq ∙ append_assoc c.events.items (event now [] [] b'L' true ∷ []) _,
      r.peer_eq,
    )
