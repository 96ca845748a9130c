-- ===== src/Tests/World.antt =====
-- Instances of the theorems on channels, in a server with two users in one of two rooms.
use project_secure_chat.Base.{
  ℕ, ◌≡◌, ◌≢◌, refl, ap₂, ◌⊎◌, true, false, none, some, List, [], ◌∷◌, ◌++◌, length, codes, arith,
}
use project_secure_chat.Base.Result.{ok}
use project_secure_chat.Buffer.Defs.{ByteBuffer, bytes_eq}
use project_secure_chat.Buffer.Append.{IsValid}
use project_secure_chat.Buffer.Text.{before_zero, after_zero}
use project_secure_chat.Opcode.Defs.{smsg_message, smsg_whisp}
use project_secure_chat.Xml.Defs.{message_doc, read_message}
use project_secure_chat.Xml.Messages.{IsMessage, claims}
use project_secure_chat.World.Consistent.{detached, detached-Consistent}
use project_secure_chat.World.Heap.{World}
use project_secure_chat.World.Channel.{can_enter, find_channel}
use project_secure_chat.World.Handlers.{
  handle_join_channel, handle_create_channel, handle_leave_channel, handle_message, handle_whisp,
  find_session,
}
use project_secure_chat.World.Keeps.{Keeps}
use project_secure_chat.World.Consistent.{Consistent}
use project_secure_chat.World.Joining.{join_lem, leave_lem, asked_name, asked_pass}
use project_secure_chat.World.Creating.{create_lem}
use project_secure_chat.World.Delivery.{queue}
use project_secure_chat.World.Broadcast.{message_lem, whisp_lem, Carries, sends}
use project_secure_chat.Tests.Server.{users, server, server-Consistent}
use project_secure_chat.Tests.Xml.{
  bob, hi, messages, other64, hi64, bob-Encodable, hi-Encodable, bob_is, hi_is, x_decoded,
  hi_decoded,
}

abbrev ask : List ℕ → List ℕ → ByteBuffer
ask name pass =
    let bs = name ++ 0 ∷ (pass ++ 0 ∷ []) in record { rpos = 0; wpos = length bs; storage = bs }

ask-IsValid : IsValid (ask (codes "Den") (codes "pw"))
ask-IsValid = record { read_inside = omega arith; write_at_end = refl; fits = omega arith }

join_lem_example :
    let packet = ask (codes "Den") (codes "pw") in
    (w' : World) × (handle_join_channel messages true 0 packet server ≡ ok w')
    × Consistent w'
    × (((c : ℕ) × (find_channel (asked_name packet) server ≡ some c)
          × (can_enter (asked_pass packet) (server.channels c) ≡ true)
          × ((w'.sessions 0).channel ≡ some c))
        ⊎ (((c : ℕ)
              → find_channel (asked_name packet) server ≡ some c
              → can_enter (asked_pass packet) (server.channels c) ≡ false)
            × Keeps server w'))
unfolding before_zero
join_lem_example =
    join_lem messages true 0 (ask (codes "Den") (codes "pw")) server server-Consistent refl
      bob-Encodable ask-IsValid

create_lem_example :
    let packet = ask (codes "Den") (codes "pw") in
    (w' : World) × (handle_create_channel messages true 0 packet server ≡ ok w')
    × Consistent w'
    × (((bytes_eq (asked_name packet) (codes "Default") ≡ false)
          × (find_channel (asked_name packet) server ≡ none)
          × ((w'.sessions 0).channel ≡ some 2))
        ⊎ (((bytes_eq (asked_name packet) (codes "Default") ≡ true)
              ⊎ ((c : ℕ) × (find_channel (asked_name packet) server ≡ some c)))
            × Keeps server w'))
unfolding before_zero
create_lem_example =
    create_lem messages true 0 (ask (codes "Den") (codes "pw")) server server-Consistent refl
      bob-Encodable ask-IsValid

leave_lem_example :
    (w' : World) × (handle_leave_channel messages 0 server ≡ ok w')
    × Consistent w'
    × ((w'.sessions 0).channel ≡ none)
unfolding before_zero
leave_lem_example = leave_lem messages 0 server server-Consistent bob-Encodable

-- A message of one byte, which the parser takes for one that claims to be of "x".
abbrev said : ByteBuffer
said = record { rpos = 0; wpos = 2; storage = 7 ∷ 0 ∷ [] }

said-IsValid : IsValid said
said-IsValid = record { read_inside = omega arith; write_at_end = refl; fits = omega arith }

said-IsMessage : IsMessage messages (7 ∷ []) hi
said-IsMessage = claims other64 hi64 (b'x' ∷ []) x_decoded hi_decoded refl

pub bob-Carries : Carries messages bob hi
bob-Carries = record {
  name_fits = bob-Encodable;
  content_fits = hi-Encodable;
  name_ends = omega arith;
  content_ends = omega arith;
  reads_back = λ n c en ec. ap₂ (λ n c. message_doc (some n) c) (bob_is n en) (hi_is c ec);
}

message_lem_example :
    (w' : World) × (t : List ℕ) × (handle_message messages true 0 said server ≡ ok w')
    × (read_message messages t ([], []) ≡ ok (bob, hi))
    × ((q : ℕ)
        → q ≢ 0
        → (users q).channel ≡ some 0
        → (users q).connected ≡ true
        → queue w' q ≡ queue server q ++ sends smsg_message t ∷ [])
    × ((q : ℕ) → (q ≡ 0) ⊎ ((users q).channel ≢ some 0) → w'.sessions q ≡ users q)
    × Keeps server w'
unfolding before_zero
message_lem_example =
    message_lem messages true 0 0 said server hi ([], []) server-Consistent refl said-IsValid
      said-IsMessage bob-Carries

-- "al", then the same message.
abbrev whispered : ByteBuffer
whispered = record { rpos = 0; wpos = 5; storage = b'a' ∷ b'l' ∷ 0 ∷ 7 ∷ 0 ∷ [] }

whispered-IsValid : IsValid whispered
whispered-IsValid = record { read_inside = omega arith; write_at_end = refl; fits = omega arith }

whisp_lem_example :
    (w' : World) × (t : List ℕ) × (handle_whisp messages true 0 whispered server ≡ ok w')
    × (read_message messages t ([], []) ≡ ok (bob, hi))
    × ((users 1).connected ≡ true
        → (users 1).has_this ≡ true
        → queue w' 1 ≡ queue server 1 ++ sends smsg_whisp t ∷ [])
    × ((r : ℕ) → r ≢ 1 → w'.sessions r ≡ users r)
unfolding before_zero after_zero find_session bytes_eq
whisp_lem_example =
    whisp_lem messages true 0 1 whispered server hi ([], []) whispered-IsValid refl said-IsMessage
      bob-Carries

-- The server once "bob" has left the room.
abbrev left : World
left = detached 0 0 server

left-Consistent : Consistent left
left-Consistent = detached-Consistent 0 0 server server-Consistent refl
