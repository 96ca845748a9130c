-- ===== src/Tests/Client.antt =====
-- Instances of the theorems on the client, and on the containers of the byte buffer.
use project_secure_chat.Client.Toy.{toy_printf, toy-IsPrintf}
use project_secure_chat.Base.{
  ℕ, ◌^◌, ◌<◌, ◌≡◌, refl, true, false, List, [], ◌∷◌, ◌++◌, codes, ltb, ltb→lt, le→ltb, arith,
}
use project_secure_chat.Base.Result.{ok, err, out_of_bounds}
use project_secure_chat.Buffer.Words.{w32, encode}
use project_secure_chat.Buffer.Defs.{ByteBuffer, empty}
use project_secure_chat.Buffer.Append.{IsValid}
use project_secure_chat.Buffer.Read.{unread}
use project_secure_chat.Buffer.Text.{NonZero}
use project_secure_chat.World.Channel.{users_list}
use project_secure_chat.Buffer.Containers.{write_vector, read_vector, write_map, read_map}
use project_secure_chat.Buffer.Codecs.{
  values, texts, values-Codec, texts-Codec, vectors, vectors-Codec, vector_image, VectorFits,
  vector_roundtrip,
}
use project_secure_chat.Buffer.Maps.{IsOrder, map_roundtrip, pair_image, PairFits}
use project_secure_chat.Opcode.Defs.{smsg_system_message}
use project_secure_chat.Peer.State.{Peer, authenticated, new_client}
use project_secure_chat.Login.Run.{Send}
use project_secure_chat.Crypto.Toy.{toy}
use project_secure_chat.World.Heap.{World, text_field, put_at}
use project_secure_chat.World.Notices.{handle_list_channel}
use project_secure_chat.World.Delivery.{queue}
use project_secure_chat.LockQueue.{empty_queue}
use project_secure_chat.Client.Screen.{Client, event}
use project_secure_chat.Client.Session
use project_secure_chat.Client.Update.{Setup}
use project_secure_chat.Client.Core.{Address, failed, done, core_connect}
use project_secure_chat.Client.Stuck.{Attempt, connects, disconnects, attempts, AllFail, stuck_lem}
use project_secure_chat.Client.Injection.{injection_lem}
use project_secure_chat.Client.Users.{entries, users_lem}
use project_secure_chat.Tests.Server.{rooms, server}
use project_secure_chat.Tests.Xml.{bob, hi, messages}

abbrev noted : Send
noted p s = (ok tt, record s { sent = s.sent ++ p ∷ [] })

abbrev online : Peer
online = record new_client { opened = true; username = bob; status = authenticated }

abbrev screen : Client
screen = record { peer = online; events = empty_queue }

abbrev setup : Setup
setup = record {
  ssl = toy;
  xml = messages;
  be = true;
  send = noted;
  now = codes "12:00";
  vasprintf = toy_printf;
}

abbrev wire : List ℕ → ByteBuffer
wire t = record { rpos = 0; wpos = 0; storage = t ++ 0 ∷ [] }

-- A server whose first channel is called "a%s".
abbrev trapped : World
trapped = record server {
  channels = put_at 0 (record { name = codes "a%s"; pass = []; members = [] }) rooms;
}

injection_lem_example :
    (t : List ℕ) × (queue (handle_list_channel [] 0 trapped) 0
      ≡ queue trapped 0 ++ record { opcode = smsg_system_message; fields = text_field t ∷ [] } ∷ [])
    × ((packet : ByteBuffer) (reader : Client)
        → packet.storage ≡ t ++ 0 ∷ []
        → Session.handle_server_message messages true [] toy_printf packet reader
          ≡ err out_of_bounds)
injection_lem_example =
    injection_lem toy_printf toy-IsPrintf messages true [] [] 0 trapped (codes "Room") 0
      ((codes "Den", 1) ∷ []) (codes "a") [] b's' refl refl refl refl (omega arith) (omega arith)
      refl

abbrev address : Address
address = record { host = codes "h"; port = 7 }

abbrev tries : List Attempt
tries = connects done ∷ disconnects true ∷ connects done ∷ []

stuck_lem_example :
    let r = attempts [] address tries (core_connect [] address failed screen).1 in
    AllFail [] address r.0 × (r.1.peer.opened ≡ false)
stuck_lem_example = stuck_lem [] address screen tries

-- Two members, "b" and "al".
abbrev listing : ByteBuffer
listing = record { rpos = 0; wpos = 9; storage = 0 ∷ 0 ∷ 0 ∷ 2 ∷ b'b' ∷ 0 ∷ b'a' ∷ b'l' ∷ 0 ∷ [] }

listing-IsValid : IsValid listing
listing-IsValid = record { read_inside = omega arith; write_at_end = refl; fits = omega arith }

users_lem_example :
    (c' : Client) × (Session.handle_channel_users_list messages true [] listing screen ≡ ok c')
    × (c'.events.items ≡ event [] [] [] b'L' true ∷ entries [] (bob ∷ codes "al" ∷ []))
    × (c'.peer ≡ online)
unfolding encode users_list
users_lem_example =
    users_lem messages true [] server 0 listing screen (omega arith) (omega arith) listing-IsValid
      refl

vector_roundtrip_example :
    let image = vector_image (encode true w32) (λ x. x < 2 ^ 32) true in
    let Fits = VectorFits (encode true w32) (λ x. x < 2 ^ 32) in
    let v : List (List ℕ) = (1 ∷ 2 ∷ []) ∷ [] ∷ (3 ∷ []) ∷ [] in
    let s =
      vectors true (values true w32) (encode true w32) (λ x. x < 2 ^ 32) (values-Codec true w32) in
    (b : ByteBuffer) × (b' : ByteBuffer) × (write_vector true s v empty ≡ ok b)
    × (b.storage ≡ vector_image image Fits true v)
    × (read_vector true s b ≡ ok (v, b'))
    × (unread b' ≡ [])
unfolding encode
vector_roundtrip_example =
    let numbers = values-Codec true w32 in
    let s = vectors true (values true w32) (encode true w32) (λ x. x < 2 ^ 32) numbers in
    vector_roundtrip true s (vector_image (encode true w32) (λ x. x < 2 ^ 32) true)
      (VectorFits (encode true w32) (λ x. x < 2 ^ 32))
      (vectors-Codec true (values true w32) (encode true w32) (λ x. x < 2 ^ 32) numbers)
      ((1 ∷ 2 ∷ []) ∷ [] ∷ (3 ∷ []) ∷ []) (omega arith) (omega arith)

less-IsOrder : IsOrder ltb
less-IsOrder = record { asym = λ a b h. le→ltb b a (omega (arith, ltb→lt a b h)) }

map_roundtrip_example :
    let m : List (ℕ × List ℕ) = (1, bob) ∷ (7, hi) ∷ [] in
    (b : ByteBuffer) × (b' : ByteBuffer) × (write_map true
        (values true w32)
        (texts true)
        ltb
        m
        empty
      ≡ ok b)
    × (b.storage
        ≡ vector_image
            (pair_image (encode true w32) (λ t. t ++ 0 ∷ []) (λ x. x < 2 ^ 32) NonZero)
            (PairFits (encode true w32) (λ t. t ++ 0 ∷ []) (λ x. x < 2 ^ 32) NonZero)
            true
            m)
    × (read_map true (values true w32) (texts true) ltb b ≡ ok (m, b'))
    × (unread b' ≡ [])
unfolding encode
map_roundtrip_example =
    map_roundtrip (encode true w32) (λ t. t ++ 0 ∷ []) (λ x. x < 2 ^ 32) NonZero true ltb
      less-IsOrder (values true w32) (texts true) (values-Codec true w32) (texts-Codec true)
      ((1, bob) ∷ (7, hi) ∷ []) ((refl, tt), (tt, tt)) (omega arith) (omega arith)
