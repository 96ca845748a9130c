-- ===== src/Client/Conversation.antt =====
-- A message from one user's client to another's: HandleSend of src/client/session/session.cpp, HandleMessage
-- of src/server/session/session.cpp, HandleMessage of the other client.
use project_secure_chat.Base.{ℕ, ◌<◌, ◌≡◌, ◌≢◌, true, some, List, ◌∷◌, length}
use project_secure_chat.Base.Result.{ok}
use project_secure_chat.Buffer.Defs.{ByteBuffer, append_limit}
use project_secure_chat.Buffer.Append.{IsValid}
use project_secure_chat.Buffer.Read.{unread}
use project_secure_chat.Buffer.Text.{before_zero, NonZero}
use project_secure_chat.Opcode.Defs.{cmsg_message}
use project_secure_chat.Packet.Defs.{new_packet}
use project_secure_chat.Xml.Defs.{Nodes, build_message}
use project_secure_chat.Xml.Messages.{Encodable, ReadsBack, IsMessage}
use project_secure_chat.World.Heap.{World}
use project_secure_chat.World.Consistent.{Consistent}
use project_secure_chat.Peer.State.{Peer, is_connected}
use project_secure_chat.Login.Run.{after, lift}
use project_secure_chat.Client.Screen.{Client}
use project_secure_chat.Client.Session
use project_secure_chat.Client.Update.{Setup}
use project_secure_chat.Client.Sending.{handle_send}

-- What a client's HandleSend makes of a text: a packet that the server reads as a message.
record Sent (u : Setup) (msg : List ℕ) (s : Peer) : Type 0 where
  text : List ℕ
  buffer : ByteBuffer
  valid : IsValid buffer
  sends_it :
      handle_send u msg s
      ≡ after
          (u.send (record (new_packet cmsg_message) { buffer = buffer }) s)
          (λ done. lift (ok true))
  is_message : IsMessage u.xml (before_zero (unread buffer)) msg

-- A text is no command, its user is connected, the name and the text fit a message, and what TinyXML
-- prints has no zero and is short.
pub record Sendable (u : Setup) (c : ℕ) (msg : List ℕ) (s : Peer) : Type 0 where
  pub online : is_connected s ≡ true
  pub no_command : c ≢ b'.'
  pub name_fits : Encodable s.username
  pub content_fits : Encodable (c ∷ msg)
  pub reads_back : ReadsBack u.xml (some s.username) (c ∷ msg)
  pub plain : (d : Nodes) → NonZero (u.xml.print d)
  pub short :
      (t : List ℕ)
      → build_message u.xml (some s.username) (c ∷ msg) ≡ ok t
      → length t < append_limit
