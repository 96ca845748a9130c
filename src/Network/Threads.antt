-- ===== src/Network/Threads.antt =====
-- src/server/networking/network-manager.cpp: NetworkThread::Call for the requests to send of one session.
-- A thread takes the next packet from the session's queue, which is one step under the queue's lock, and
-- gives it to the socket in another. `threads` is their number; `held` is what each has taken, `added` what
-- has been put into the queue so far. No thread opens a socket again that was closed. An exception other
-- than that of the socket, which would end the thread, is left out.
use project_secure_chat.Base.{
  ℕ, ◌<◌, ◌≡◌, refl, Bool, true, false, Option, none, some, List, [], ◌∷◌, ◌++◌, arith,
}
use project_secure_chat.World.Heap.{put_at}

pub record Sender {ℓ} (A : Type ℓ) : Type ℓ where
  pub queue : List A
  pub held : ℕ → Option A
  pub sent : List A
  pub added : List A
  pub closed : Bool

module _ {ℓ} {A : Type ℓ} where
  abbrev pub sender : List A → Sender A
  sender queue = record {
    queue = queue;
    held = λ t. none;
    sent = [];
    added = queue;
    closed = false;
  }

  -- SendPacket
  unfoldable pub enqueue : A → Sender A → Sender A
  enqueue p s = record s { queue = s.queue ++ p ∷ []; added = s.added ++ p ∷ [] }

  -- GetPacketToSend
  unfoldable pub hold : ℕ → A → List A → Sender A → Sender A
  hold t p rest s = record s { queue = rest; held = put_at t (some p) s.held }

  -- SendPacketToSocket
  unfoldable pub give_to_socket : ℕ → A → Sender A → Sender A
  give_to_socket t p s = record s { held = put_at t none s.held; sent = s.sent ++ p ∷ [] }

  -- The socket is closed already, or sending throws, and the exception's handler closes it: the packet is
  -- lost.
  unfoldable pub lose : ℕ → Sender A → Sender A
  lose t s = record s { held = put_at t none s.held; closed = true }

  pub data Run (threads : ℕ) (queue : List A) : Sender A → Type ℓ where
    starts : Run threads queue (sender queue)
    arrives :
        {s : Sender A} (p : A)
        → Run threads queue s
        → s.closed ≡ false
        → Run threads queue (enqueue p s)
    holds :
        {s : Sender A} (t : ℕ) (p : A) (rest : List A)
        → Run threads queue s
        → t < threads
        → s.closed ≡ false
        → s.held t ≡ none
        → s.queue ≡ p ∷ rest
        → Run threads queue (hold t p rest s)
    gives :
        {s : Sender A} (t : ℕ) (p : A)
        → Run threads queue s
        → t < threads
        → s.closed ≡ false
        → s.held t ≡ some p
        → Run threads queue (give_to_socket t p s)
    loses :
        {s : Sender A} (t : ℕ) (p : A)
        → Run threads queue s
        → t < threads
        → s.held t ≡ some p
        → Run threads queue (lose t s)
    -- Any other thread may close the socket.
    closes : {s : Sender A} → Run threads queue s → Run threads queue (record s { closed = true })

  abbrev pub in_hand : Option A → List A
  in_hand none = []
  in_hand (some p) = p ∷ []

  -- With two threads any two packets that wait behind each other can reach the socket in the other order.
  pub overtaken_lem :
      (p q : A) (rest : List A)
      → (s : Sender A) × Run 2 (p ∷ q ∷ rest) s × (s.sent ≡ q ∷ p ∷ []) × (s.queue ≡ rest)
  unfolding hold give_to_socket
  overtaken_lem p q rest =
      let one = Run.holds 0 p (q ∷ rest) Run.starts (omega arith) refl refl refl in
      let two = Run.holds 1 q rest one (omega arith) refl refl refl in
      let three = Run.gives 1 q two (omega arith) refl refl in
      let four = Run.gives 0 p three (omega arith) refl refl in (_, four, refl, refl)
