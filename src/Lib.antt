-- ===== src/Lib.antt =====
-- Verification of Project Secure Chat: a chat server and client in C++ that talk over encrypted
-- packets. Paths are from the repository's root.
--
-- The program. A client and the server exchange frames over TCP. A frame holds a packet: an
-- opcode, a length, a time, a sequence number and contents, which a ByteBuffer writes and reads.
-- Received packets go into a queue per session; two filters decide, by the table of opcodes,
-- which thread takes a packet. The handlers of a session work on the session manager's sessions
-- and on the channel manager's channels and queue packets for other sessions. Chat texts are XML
-- whose fields are in base64. Keys are derived from two random halves by Xor; packets are
-- encrypted by AES and RSA.
--
-- The files.
-- - Base: lists, Boolean tests and Result, the outcome of a call that may throw.
-- - Buffer: src/shared/utility/bytebuffer.h and byteconverter.h. Defs has the methods of
--   ByteBuffer (append is append_bytes and append_from, operator<< is append_value and
--   append_text, operator>> is read and read_text, read is bytes_at and read_at), Words the byte
--   order; Append, Read, Text, Bounds and Fields have the laws. Containers has vectors, lists and
--   maps, Codecs and Maps their laws over those of their elements.
-- - Packet: src/shared/networking/packet.h and packet.cpp. Defs has Incapsulate and Decapsulate;
--   Seal has Encrypt and Unseal Decrypt; Writing, Frame, Sealing, Replay and Transfer have the
--   laws of one frame, of the sequence numbers and of a conversation.
-- - LockQueue: src/shared/utility/queues/lock_queue.h. Timer: IntervalTimer of
--   src/shared/utility/timer.h and who sets it.
-- - Opcode: src/shared/networking/opcode.h, the two opcode.cpp and packetfilter.cpp.
-- - Base64: src/shared/crypto/base64.cpp. Crypto: src/shared/crypto/crypto.cpp, with Keys (Xor),
--   Random, Aes and Rsa; OpenSsl is what it calls, and Toy a library that satisfies what is
--   assumed.
-- - Xml: src/shared/xml-message.cpp, over a parser and a printer of TinyXML.
-- - World: src/server/channel and the handlers of src/server/session/session.cpp. Heap has the
--   objects behind the pointers and SendPacket, Channel the channels and their manager, Handlers
--   the handlers; Members and Keeps have lemmas, Consistent and Attach the invariant, Membership,
--   Entering, Joining and Creating its preservation, Delivery and Broadcast who gets what;
--   Notices has the list of channels and HandleServerSide, Ending has the end of a session, from
--   src/server/session/session-manager.cpp.
-- - Peer: src/shared/session/sessionbase.h and the setters of sessionbase.cpp: the state of a
--   session, which the server and the client share.
-- - Login: HandleLogin and HandleRefreshKey of src/server/session/session.cpp (Server, with
--   GenerateNewKey and LoginTimer) and of src/client/session/session.cpp (Client). Run has how a
--   handler runs and what a packet that is sent does to the encryption; Parts, Greeting,
--   Accepting, Checking and Closing have one step each, Turns what one side makes of the other's
--   packets, Handshake the whole login, Refresh and Renewal the exchange of a new key, Admission
--   who is let in.
-- - Wire: SendPacketToSocket and RecvPacketFromSocket of src/shared/session/sessionbase.cpp
--   (Socket), what they give to the ciphers (Params), a packet from one socket to the other
--   (Arrival), and frames that come whole or in part, over recv(2) (Stream), and the two together
--   (Delivery); Hybrid has when Encrypt returns in the hybrid mode, Sealed what the login and the
--   exchange of keys need of sending.
-- - Scheduling: src/server/threading/scheduling-engine.cpp,
--   src/server/channel/channel-updater.cpp and src/shared/threading/semaphore.h, as the steps of
--   threads (System), with what every run keeps (Invariant) and what follows (Progress).
-- - Sessions: src/server/session/session-manager.cpp: the sessions and those that wait for room
--   (Manager), what each change does to the number of active ones (Limit) and a run of changes
--   (Runs).
-- - Commands: src/client/command/chat-handler.cpp: the tables of commands (Table) and the parser
--   (Parse), which row it chooses (Choice), that it ends (Depth), the packets that the commands
--   send (Packets) and what the server reads in them (Credentials), and the help (Help), which
--   always answers (Answer). The fuel counts the tables gone into; there are two levels of them.
-- - Dispatch: Session::Update of src/server/session/session.cpp: the loop over any handlers
--   (Server), what packets that arrive meanwhile change (Batches), which handlers it reaches and
--   why it stops (Guards), the handlers of Login and World behind it (Host), what a session that
--   has not logged in can change (Outsiders).
-- - Client: src/client/session/session.cpp and src/client/client-core.cpp: the events for the
--   user interface (Screen), the handlers (Session), both functions Update (Update), HandleSend
--   with the commands (Sending), ClientCore and connecting (Core); Formats and Injection have
--   what a text of the server does as a format, Users the list of a channel's members,
--   Conversation a message from one user to another, Stuck a connection that failed.
-- - Database: the queries of src/server/database/database-manager.cpp.
-- - Network: src/server/networking/network-manager.cpp and socket/socket-server.cpp there: the
--   requests and who serves them (System), and what several threads make of one session's packets
--   (Threads).
-- - Tests: the theorems at concrete inputs.
--
-- Conventions. A byte is a number; widths wrap around where the source's do, size_t at 2^64. `be`
-- says whether the macro BIG_ENDIAN is defined; the machine is little-endian. The fuel of the
-- loop that reads a text is the number of unread bytes, each step of which takes one. A read out
-- of an allocated block is the error out_of_bounds. The clock is an argument. A pointer is a
-- number into a heap; an unordered map is a list in the order of its iteration. A method that
-- holds its object's lock throughout is one step. A handler of World that throws keeps no change,
-- since what a client can make it throw comes first; those of Login and Wire keep the state at
-- that moment. An access outside a block in a handler of the server counts as an exception; on
-- the client it is none. There SendPacketToSocket is an argument, for which the theorems put the
-- program's; a session keeps what was given to it (`sent`) and the blocks for the socket
-- (`wire`), and the calls of the random generator are numbered.
--
-- Not modelled: the system calls behind sockets and threads, the file of the database,
-- configuration, logging and the user interface, which call the system and other libraries; the
-- loops of the session manager and the channel manager, which go on with iterators that they
-- erased; of ByteBuffer, floats and the packed formats. The server's copy of the command parser
-- is not built.
pub mod Base
pub mod Buffer
pub mod Packet
pub mod LockQueue
pub mod Timer
pub mod Opcode
pub mod Base64
pub mod Crypto
pub mod Xml
pub mod World
pub mod Peer
pub mod Login
pub mod Wire
pub mod Scheduling
pub mod Sessions
pub mod Commands
pub mod Dispatch
pub mod Client
pub mod Database
pub mod Network
pub mod Tests
