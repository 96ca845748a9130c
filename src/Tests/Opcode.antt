-- ===== src/Tests/Opcode.antt =====
-- Instances of the theorems on the tables of handlers, on queues and on timers.
use project_secure_chat.Base.{ℕ, ◌≡◌, [], ◌∷◌, ◌++◌, false}
use project_secure_chat.Opcode.Defs.{
  OpcodeHandler, ServerHandler, ClientHandler, SessionReqStatus, PacketProcessing,
}
use project_secure_chat.LockQueue.{LockQueue, adds, takes, run, run_fifo}

abbrev message_row : OpcodeHandler ServerHandler
message_row = record {
  name = "CMSG_MESSAGE";
  status = SessionReqStatus.logged;
  processing = PacketProcessing.inplace;
  handler = ServerHandler.handle_message;
}

abbrev client_row : OpcodeHandler ClientHandler
client_row = record {
  name = "CMSG_MESSAGE";
  status = SessionReqStatus.logged;
  processing = PacketProcessing.inplace;
  handler = ClientHandler.handle_client_side;
}

abbrev start : LockQueue ℕ
start = record { items = 1 ∷ []; canceled = false }

run_fifo_example :
    (run (takes ∷ adds 2 ∷ adds 3 ∷ takes ∷ []) start).0
      ++ (run (takes ∷ adds 2 ∷ adds 3 ∷ takes ∷ []) start).1.items
    ≡ 1 ∷ 2 ∷ 3 ∷ []
run_fifo_example = run_fifo (takes ∷ adds 2 ∷ adds 3 ∷ takes ∷ []) start
