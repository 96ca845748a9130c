-- ===== src/Dispatch/Host.antt =====
-- src/server/session/session.cpp: what the loop of Session::Update runs on. The model of the login keeps
-- a session as a `Peer`, that of the channels as a `Session` of the world; both have the name and the
-- socket of one object, so that a step of the one hands them on to the other.
use project_secure_chat.Base.{ℕ, Bool, true, false, Option, none, some, List, []}
use project_secure_chat.Base.Result.{Result, ok, err}
use project_secure_chat.Crypto.OpenSsl.{OpenSsl}
use project_secure_chat.Opcode.Defs.{ServerHandler}
use project_secure_chat.Packet.Defs.{Packet}
use project_secure_chat.Commands.Packets.{sha256_digest}
use project_secure_chat.Peer.State.{Peer, Config, is_authenticated}
use project_secure_chat.Login.Run.{Send}
use project_secure_chat.Login.Server.{
  handle_login, handle_refresh_key, generate_new_key, login_timer,
}
use project_secure_chat.Xml.Defs.{TinyXml}
use project_secure_chat.World.Heap.{World, set_session}
use project_secure_chat.World.Handlers.{
  handle_ping, handle_message, handle_whisp, handle_create_channel, handle_join_channel,
  handle_leave_channel, join_default_channel, find_session,
}
use project_secure_chat.World.Notices.{handle_list_channel, handle_server_side}
use project_secure_chat.Dispatch.Server.{Actions}

-- `waiting`: m_inQueue.
pub record Host : Type 0 where
  pub peer : Peer
  pub world : World
  pub waiting : Bool

-- The libraries and the configuration, SendPacketToSocket, and the users that the database knows.
pub record Setup : Type 0 where
  pub ssl : OpenSsl
  pub xml : TinyXml
  pub cfg : Config
  pub be : Bool
  pub known : List ℕ → Bool
  pub send : Send

abbrev pub is_some {ℓ} : {A : Type ℓ} → Option A → Bool
is_some none = false
is_some (some a) = true

module _ (u : Setup) (p : ℕ) where
  -- After a step on the peer.
  abbrev pub publish : Peer → Host → Host
  publish s d =
      let ses = record (d.world.sessions p) { username = s.username; connected = s.opened } in
      record d { peer = s; world = set_session p ses d.world }

  -- After a step on the world.
  abbrev pub withdraw : World → Host → Host
  withdraw w d = record d { peer = record d.peer { opened = (w.sessions p).connected }; world = w }

  -- An exception comes before the first change.
  abbrev pub tried : Result World → Host → Host
  tried (ok w) d = withdraw w d
  tried (err e) d = d

  unfoldable pub taken : World → List ℕ → Bool
  taken w name = is_some (find_session name w.session_map w)

  unfoldable pub empty_digest : List ℕ
  empty_digest = sha256_digest u.ssl []

  -- HandleLogin: a session that has logged in joins the default channel.
  unfoldable pub entered : Result Bool → Host → Host
  entered (ok true) d = tried (join_default_channel u.xml empty_digest p d.world) d
  entered (ok false) d = d
  entered (err e) d = d

  unfoldable pub log_in : Packet → Host → Host
  log_in packet d =
      let (r, s) = handle_login u.ssl u.cfg u.be u.known u.send (taken d.world) packet d.peer in
      entered r (publish s d)

  -- The handlers, by their name in the table.
  unfoldable pub act : ServerHandler → Packet → Host → Host
  unfolding empty_digest log_in taken entered
  act ServerHandler.handle_null packet d = d
  act ServerHandler.handle_ping packet d = withdraw (handle_ping p d.world) d
  act ServerHandler.handle_server_side packet d = withdraw (handle_server_side p d.world) d
  act ServerHandler.handle_message packet d =
      tried (handle_message u.xml u.be p packet.buffer d.world) d
  act ServerHandler.handle_whisp packet d =
      tried (handle_whisp u.xml u.be p packet.buffer d.world) d
  act ServerHandler.handle_create_channel packet d =
      tried (handle_create_channel u.xml u.be p packet.buffer d.world) d
  act ServerHandler.handle_join_channel packet d =
      tried (handle_join_channel u.xml u.be p packet.buffer d.world) d
  act ServerHandler.handle_leave_channel packet d = tried (handle_leave_channel u.xml p d.world) d
  act ServerHandler.handle_list_channel packet d =
      withdraw (handle_list_channel empty_digest p d.world) d
  act ServerHandler.handle_login packet d = log_in packet d
  act ServerHandler.handle_refresh_key packet d =
      publish (handle_refresh_key u.ssl u.cfg u.be u.known u.send packet d.peer).1 d

  timed : Result (Unit {0}) × Peer → Host → Result Host
  timed (ok done, s) d = ok (publish s d)
  timed (err e, s) d = err e

  -- LoginTimer and GenerateNewKey
  unfoldable pub tick : ℕ → Host → Result Host
  unfolding timed
  tick diff d =
      timed (generate_new_key u.ssl u.cfg u.be u.known u.send diff (login_timer diff d.peer)) d

  unfoldable pub actions : Actions Host
  actions = record {
    opened = λ d. d.peer.opened;
    authenticated = λ d. is_authenticated d.peer;
    in_channel = λ d. is_some (d.world.sessions p).channel;
    in_queue = λ d. d.waiting;
    act = act;
    timers = tick;
  }
