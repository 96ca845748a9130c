-- ===== src/Packet/Replay.antt =====
-- The replay checks of Packet::Decapsulate, on whatever bytes arrive.
use project_secure_chat.Base.{ℕ, ◌≤◌, ◌≡◌, Bool, true, Option, none, some, arith}
use project_secure_chat.Base.Result.{ok}
use project_secure_chat.Buffer.Defs.{ByteBuffer}
use project_secure_chat.Packet.Defs.{Packet, accept, decapsulate}

-- An accepted packet that is numbered is accepted again, with the number that the receiver keeps
-- after it: the check lets the last number pass.
pub replay_accepted :
    (be : Bool) (now seq_old seq' : ℕ) (b : ByteBuffer) (p : Packet)
    → decapsulate be true now seq_old b ≡ ok (some p, seq')
    → decapsulate be true now seq' b ≡ ok (some p, seq')
unfolding decapsulate accept
replay_accepted be now seq_old seq' b p h = ground arith

-- The number that the receiver keeps never falls, and only an accepted packet changes it.
pub decapsulate_seq :
    (be check : Bool) (now seq_old seq' : ℕ) (b : ByteBuffer) (o : Option Packet)
    → decapsulate be check now seq_old b ≡ ok (o, seq')
    → (seq_old ≤ seq') × (o ≡ none → seq' ≡ seq_old)
unfolding decapsulate accept
decapsulate_seq be check now seq_old seq' b o h = (ground arith, λ e. ground arith)
