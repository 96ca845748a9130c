-- ===== src/Opcode/Filter.antt =====
-- src/server/networking/packet/packetfilter.cpp: which packets a thread takes from the queue of a
-- session. A filter sees of its session whether it is in a channel.
use project_secure_chat.Base.{ℕ, Bool, true, false, not, Option, none, some, get_elem?}
use project_secure_chat.Base.Result.{Result, ok, err, out_of_bounds, ◌>>=◌}
use project_secure_chat.Opcode.Defs.{
  OpcodeHandler, ServerHandler, PacketProcessing, inplace, threadunsafe, threadsafe, opcode_table,
}

abbrev at_row {ℓ} : {A : Type ℓ} → Option A → Result A
at_row none = err out_of_bounds
at_row (some a) = ok a

-- opcodeTable[opcode]
unfoldable pub lookup_handler : ℕ → Result (OpcodeHandler ServerHandler)
lookup_handler opcode = at_row (get_elem? opcode_table opcode)

pub map_processes : PacketProcessing → Bool → Bool
map_processes inplace in_channel = true
map_processes threadunsafe in_channel = false
map_processes threadsafe in_channel = in_channel

-- MapSessionFilter::Process, the filter of the channels' update.
unfoldable pub map_filter : Bool → ℕ → Result Bool
unfolding map_processes lookup_handler
map_filter in_channel opcode = do
  h ← lookup_handler opcode
  ok (map_processes h.processing in_channel)

pub single_processes : PacketProcessing → Bool → Bool
single_processes inplace in_channel = true
single_processes threadunsafe in_channel = true
single_processes threadsafe in_channel = not in_channel

-- SingleSessionFilter::Process, the filter of the sessions' update.
unfoldable pub single_filter : Bool → ℕ → Result Bool
unfolding single_processes lookup_handler
single_filter in_channel opcode = do
  h ← lookup_handler opcode
  ok (single_processes h.processing in_channel)
