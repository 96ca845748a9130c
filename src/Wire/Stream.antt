-- ===== src/Wire/Stream.antt =====
-- src/shared/networking/socket-base.cpp: Recv, and how src/shared/session/sessionbase.cpp takes the blocks
-- of one session off the stream with it. recv(2) is a parameter: how many bytes it gives, of how many
-- that are asked for and of those that have come. `memory` is what the block of the caller held before.
use project_secure_chat.Base.{
  ℕ, ◌<◌, ◌≤◌, ◌≡◌, refl, sym, ap, ◌∙◌, Bool, true, false, not, ◌||◌, Option, none, some, List, [],
  ◌∷◌, ◌++◌, ltb, ◌==◌, if◌then◌else◌, length, length-append, take, drop, take-append_length,
  drop-append_length, ne→==, le→ltb, arith,
}
use mathlib.Core.List.{append_assoc, append-nil}
use project_secure_chat.Base.Result.{Result, ok}
use project_secure_chat.Buffer.Words.{w16, encode, decode, length-encode, decode-encode}
use project_secure_chat.Crypto.OpenSsl.{OpenSsl}
use project_secure_chat.Packet.Defs.{Packet}
use project_secure_chat.Peer.State.{Peer}
use project_secure_chat.Wire.Socket.{recv_packet_from_socket}

pub record Os : Type 0 where
  pub recv : ℕ → List ℕ → ℕ

-- A stream gives what has come, up to what is asked for.
pub record IsStream (os : Os) : Type 0 where
  pub enough : (n : ℕ) (here : List ℕ) → n ≤ length here → os.recv n here ≡ n
  pub short : (n : ℕ) (here : List ℕ) → length here ≤ n → os.recv n here ≡ length here

-- What the socket has and has not given yet, and whether it was closed.
pub record Stream : Type 0 where
  pub pending : List ℕ
  pub closed : Bool

-- SocketBase::Recv: the block afterwards, or the exception. The number of bytes is not looked at by the
-- callers.
unfoldable pub socket_recv : Os → ℕ → List ℕ → Stream → Option (List ℕ) × Stream
socket_recv os n memory st =
    let count = os.recv n st.pending in
    if count == 0 then (none, record st { closed = true }) else (
      some (take count st.pending ++ drop count memory),
      record st { pending = drop count st.pending },
    )

body_of : ℕ → Option (List ℕ) × Stream → Option (ℕ × List ℕ) × Stream
body_of len (none, st) = (none, st)
body_of len (some block, st) = (some (len, take len block), st)

-- A length above 65000 or of 0 is not followed by a second Recv.
with_length : Os → List ℕ → ℕ → Stream → Option (ℕ × List ℕ) × Stream
unfolding body_of
with_length os memory len st =
    if ltb 65000 len || len == 0
    then (some (len, []), st)
    else body_of len (socket_recv os len memory st)

after_length : Os → List ℕ → Option (List ℕ) × Stream → Option (ℕ × List ℕ) × Stream
after_length os memory (none, st) = (none, st)
after_length os memory (some two, st) = with_length os memory (decode false w16 two) st

-- The calls of Recv in _RecvPacketFromSocket. `two` is what the variable for the length held.
unfoldable pub read_block : Os → List ℕ → List ℕ → Stream → Option (ℕ × List ℕ) × Stream
unfolding with_length after_length
read_block os two memory st = after_length os memory (socket_recv os 2 two st)

module _ (o : OpenSsl) (be : Bool) (dir : Option (List ℕ)) (now : ℕ) where
  decoded : Option (ℕ × List ℕ) × Stream → Peer → Option (Result (Option Packet) × Peer) × Stream
  decoded (none, st) s = (none, st)
  decoded (some (len, body), st) s = (some (recv_packet_from_socket o be dir now len body s), st)

  -- RecvPacketFromSocket with its calls of Recv; `none` is the exception of the socket.
  unfoldable pub recv_from_stream :
      Os → List ℕ → List ℕ → Stream → Peer → Option (Result (Option Packet) × Peer) × Stream
  unfolding decoded
  recv_from_stream os two memory st s =
      if not s.opened then (some (ok none, s), st) else decoded (read_block os two memory st) s

abbrev pub block : List ℕ → List ℕ
block body = encode false w16 (length body) ++ body

recv_of :
    (os : Os) (n : ℕ) (memory got rest : List ℕ) (closed : Bool)
    → os.recv n (got ++ rest) ≡ length got
    → 0 < length got
    → socket_recv os n memory (record { pending = got ++ rest; closed = closed })
      ≡ (some (got ++ drop (length got) memory), record { pending = rest; closed = closed })
unfolding socket_recv
recv_of os n memory got rest closed e pos = rw (
  e,
  ne→== (length got) 0 (λ z. omega (arith, z, pos)),
  take-append_length (length got) got rest refl,
  drop-append_length (length got) got rest refl,
)

two_of :
    (os : Os) (len t u : ℕ) (rest : List ℕ) (closed : Bool)
    → IsStream os
    → socket_recv os 2
        (t ∷ u ∷ [])
        (record { pending = encode false w16 len ++ rest; closed = closed })
      ≡ (some (encode false w16 len), record { pending = rest; closed = closed })
two_of os len t u rest closed is =
    let two = encode false w16 len in
    let size = length-encode false w16 len in
    let whole = is.enough 2 (two ++ rest) (omega (arith, size, length-append two rest)) in
    recv_of os 2 (t ∷ u ∷ []) two rest closed (whole ∙ sym size) (omega (arith, size))
    ∙ ap (λ n. (some (two ++ drop n (t ∷ u ∷ [])), record { pending = rest; closed = closed })) size
    ∙ ap (λ b. (some b, record { pending = rest; closed = closed })) (append-nil two)

read_of :
    (os : Os) (len t u : ℕ) (memory got rest : List ℕ) (closed : Bool)
    → IsStream os
    → len ≤ 65000
    → os.recv len (got ++ rest) ≡ length got
    → 0 < length got
    → length got ≤ len
    → read_block os
        (t ∷ u ∷ [])
        memory
        (record { pending = encode false w16 len ++ (got ++ rest); closed = closed })
      ≡ (
        some (len, take len (got ++ drop (length got) memory)),
        record { pending = rest; closed = closed },
      )
unfolding read_block after_length with_length body_of
read_of os len t u memory got rest closed is small e pos le = rw (
  two_of os len t u (got ++ rest) closed is,
  decode-encode false w16 len (omega arith),
  le→ltb 65000 len small,
  ne→== len 0 (λ z. omega (arith, z, pos, le)),
  recv_of os len memory got rest closed e pos,
)

module _ (o : OpenSsl) (be : Bool) (dir : Option (List ℕ)) (now : ℕ) (os : Os) (t u : ℕ)
    (memory : List ℕ) (s : Peer) where
  -- A block that has come whole, with anything behind it: RecvPacketFromSocket gets the block's body and
  -- leaves what is behind it for the next call. The socket is open, the body has from 1 to 65000 bytes, and
  -- recv gives what has come, up to what is asked for.
  pub stream_lem :
      (body rest : List ℕ)
      → IsStream os
      → s.opened ≡ true
      → 0 < length body
      → length body ≤ 65000
      → recv_from_stream o be dir now os
          (t ∷ u ∷ [])
          memory
          (record { pending = block body ++ rest; closed = false })
          s
        ≡ (
          some (recv_packet_from_socket o be dir now (length body) body s),
          record { pending = rest; closed = false },
        )
  unfolding recv_from_stream decoded
  stream_lem body rest is opened pos small =
      let whole = is.enough (length body) (body ++ rest) (omega (arith, length-append body rest)) in
      rw (
        opened,
        append_assoc (encode false w16 (length body)) body rest,
        read_of os (length body) t u memory body rest false is small whole pos (omega arith),
        take-append_length (length body) body (drop (length body) memory) refl,
      )

  -- A block of which the length and a first part of the body has come, of at least one byte: the calls of
  -- Recv do not throw and do not wait for the rest; RecvPacketFromSocket goes on, to whatever end, as for a body of the whole length that
  -- ends with what was in memory, and leaves nothing of the block in the stream. The socket
  -- is open, the body has at most 65000 bytes, and recv gives what has come, up to what is asked for.
  pub short_lem :
      (len : ℕ) (part : List ℕ)
      → IsStream os
      → s.opened ≡ true
      → 0 < length part
      → length part < len
      → len ≤ 65000
      → recv_from_stream o be dir now os
          (t ∷ u ∷ [])
          memory
          (record { pending = encode false w16 len ++ part; closed = false })
          s
        ≡ (
          some (
              recv_packet_from_socket o be dir now len
                (take len (part ++ drop (length part) memory))
                s),
          record { pending = []; closed = false },
        )
  unfolding recv_from_stream decoded
  short_lem len part is opened pos less small =
      let all = append-nil part in
      let given = ap (os.recv len) all ∙ is.short len part (omega arith) in
      rw (
        opened,
        ap (λ p. encode false w16 len ++ p) (sym all),
        read_of os len t u memory part [] false is small given pos (omega arith),
      )
