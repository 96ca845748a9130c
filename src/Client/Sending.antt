-- ===== src/Client/Sending.antt =====
-- src/client/session/session.cpp: HandleSend, with the commands of src/client/command/chat-handler.cpp.
use project_secure_chat.Base.{
  ℕ, Bool, true, false, not, Option, none, some, List, [], ◌∷◌, ltb, if◌then◌else◌,
}
use project_secure_chat.Base.Result.{Result, ok, err, assertion}
use project_secure_chat.Buffer.Defs.{empty, append_text}
use project_secure_chat.Crypto.OpenSsl.{OpenSsl}
use project_secure_chat.Opcode.Defs.{cmsg_message}
use project_secure_chat.Packet.Defs.{Packet, new_packet}
use project_secure_chat.Xml.Defs.{TinyXml, build_message}
use project_secure_chat.Commands.Table.{
  CommandHandler, info_command, kick_command, commands_command, help_command,
}
use project_secure_chat.Commands.Parse.{Action, parse_commands}
use project_secure_chat.Commands.Packets.{command_packet}
use project_secure_chat.Peer.State.{is_connected}
use project_secure_chat.Login.Run.{M, ◌>>=◌, lift, get}
use project_secure_chat.Client.Update.{Setup}

-- Whether the handler of a command returns true, where it returns.
succeeded : OpenSsl → TinyXml → List ℕ → CommandHandler → List ℕ → Bool
succeeded o x username info_command args = true
succeeded o x username kick_command args = true
succeeded o x username commands_command args = true
succeeded o x username help_command args = true
succeeded o x username h args = elim (command_packet o x username h args) [
  | err e ↦ true
  | ok none ↦ false
  | ok (some p) ↦ true
]

module _ (u : Setup) where
  send_found : Option Packet → M (Unit {0})
  send_found none = lift (ok tt)
  send_found (some p) = u.send p

  -- Of what a command does, the packets; what it tells the user is left out.
  run_action : List ℕ → Action → M (Unit {0})
  run_action username (Action.calls_handler h args) = do
    p ← lift (command_packet u.ssl u.xml username h args)
    send_found p
  run_action username (Action.sends_error e) = lift (ok tt)
  run_action username (Action.sends_help t) = lift (ok tt)
  run_action username (Action.shows_help table t) = lift (ok tt)

  run_actions : List ℕ → List Action → M (Unit {0})
  run_actions username [] = lift (ok tt)
  run_actions username (a ∷ rest) = do t ← run_action username a; run_actions username rest

  run_parsed : List ℕ → Option (Result (ℕ × List Action)) → M ℕ
  run_parsed username none = lift (err assertion)
  run_parsed username (some r) = do
    (n, actions) ← lift r
    t ← run_actions username actions
    lift (ok n)

  -- ChatHandler(this).ParseCommands(msg)
  commands : List ℕ → M ℕ
  commands msg s =
      run_parsed s.username (parse_commands (succeeded u.ssl u.xml s.username) true msg) s

  send_text : List ℕ → M Bool
  send_text msg = do
    s ← get
    text ← lift (build_message u.xml (some s.username) msg)
    b ← lift (append_text text empty)
    t ← u.send (record (new_packet cmsg_message) { buffer = b })
    lift (ok true)

  -- Session::HandleSend
  unfoldable pub handle_send : List ℕ → M Bool
  unfolding succeeded send_found run_action run_actions run_parsed commands send_text
  handle_send msg = do
    s ← get
    n ← if is_connected s then commands msg else lift (ok 0)
    if not (is_connected s)
        then lift (ok false)
        else if ltb 0 n
        then lift (ok true)
        else send_text msg
