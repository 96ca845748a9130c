-- ===== src/Client/Core.antt =====
-- src/client/client-core.cpp, and Connect, Disconnect and ResetSocket of
-- src/client/session/session.cpp. What the system says to connecting and closing is an argument; a new
-- socket is not closed.
use project_secure_chat.Base.{
  ℕ, Bool, true, false, not, ◌&&◌, ◌||◌, Option, List, [], ◌∷◌, ◌++◌, leb, ◌==◌, if◌then◌else◌,
  length, take, codes, decimal,
}
use project_secure_chat.Base.Result.{Result, ok, err, ◌>>=◌}
use project_secure_chat.Buffer.Defs.{bytes_eq}
use project_secure_chat.Packet.Defs.{Packet}
use project_secure_chat.Peer.State.{Peer, is_connected, set_connected}
use project_secure_chat.Login.Run.{M}
use project_secure_chat.Client.Screen.{Client, send_to_gui, send_format_to_gui}
use project_secure_chat.Client.Update.{Setup, update}
use project_secure_chat.Client.Sending.{handle_send}

-- How the client shows its own text.
unfoldable pub label : List ℕ → List ℕ → List ℕ × ℕ
label username text =
    if not (bytes_eq (take 1 text) (codes ".")) || bytes_eq (take 5 text) (codes ".send")
    then (username, b'M')
    else if bytes_eq (take 6 text) (codes ".whisp")
    then (username, b'W')
    else ([], b'e')

module _ (u : Setup) where
  sent : Result Bool × Peer → Client → Result (Bool × Client)
  sent (err e, s) c = err e
  sent (ok true, s) c = ok (true, record c { peer = s })
  sent (ok false, s) c = do
    c' ← send_format_to_gui u.vasprintf u.now [] b'e' (codes "Send Failed!") (record c { peer = s })
    ok (false, c')

  -- ClientCore::HandleSend
  unfoldable pub core_handle_send : List ℕ → Client → Result (Bool × Client)
  unfolding sent
  core_handle_send text c =
      if length text == 0 || not (is_connected c.peer)
      then ok (false, c)
      else if leb 65000 (length text)
      then (do
        c1 ← send_format_to_gui u.vasprintf u.now [] b'e' (codes "message is too long") c
        ok (false, c1))
      else (do
        let l = label c.peer.username text
        c1 ← send_format_to_gui u.vasprintf u.now l.0 l.1 text c
        sent (handle_send u text c1.peer) c1)

-- How connect(2) ends: well, with a SocketException, or with another one.
pub data Outcome : Type 0 where
  done failed thrown : Outcome

-- Where the client is to connect to.
pub record Address : Type 0 where
  pub host : List ℕ
  pub port : ℕ

abbrev pub location : Address → List ℕ
location a = a.host ++ (codes ":" ++ (decimal a.port ++ codes "!\n"))

unfoldable pub reset_socket : Client → Client
reset_socket c = record c { peer = record c.peer { opened = true } }

module _ (now : List ℕ) (a : Address) where
  refused : Client → Bool × Client
  refused c = (
    false,
    send_to_gui now [] b'e' (codes "Connection failed " ++ location a)
        (record c { peer = set_connected false c.peer }),
  )

  connected_to : Outcome → Client → Bool × Client
  connected_to done c = (
    true,
    let c1 =
          send_to_gui now [] b'e' (codes "Connected to " ++ location a)
            (record c { peer = set_connected true c.peer }) in
        record c1 { peer = record c1.peer { id_send = 0; id_receive = 0 } },
  )
  connected_to failed c = refused c
  connected_to thrown c = (false, c)

  -- Session::Connect; on a socket that is closed, connect(2) fails.
  unfoldable pub connect : Outcome → Client → Bool × Client
  unfolding refused connected_to
  connect outcome c = if c.peer.opened then connected_to outcome c else refused c

  -- Session::Disconnect; close(2) of a socket that is closed fails.
  unfoldable pub disconnect : Bool → Client → Bool × Client
  disconnect closes c =
      if c.peer.opened && closes
      then (
        true,
        send_to_gui now [] b'e' (codes "Disconnected from " ++ location a)
            (record c { peer = set_connected false c.peer }),
      )
      else (false, send_to_gui now [] b'e' (codes "Disconnection failed?!\n") c)

  -- ClientCore::Connect and ClientCore::Disconnect, but for the thread.
  unfoldable pub core_connect : Outcome → Client → Bool × Client
  core_connect outcome c = connect outcome c

  disconnected_core : Bool × Client → Bool × Client
  disconnected_core (true, c) = (true, reset_socket c)
  disconnected_core (false, c) = (false, c)

  unfoldable pub core_disconnect : Bool → Client → Bool × Client
  unfolding disconnected_core
  core_disconnect closes c = disconnected_core (disconnect closes c)

-- What RecvPacketFromSocket of the thread meets: packets and closed sockets, or a SocketException.
pub data Arrival : Type 0 where
  arrives : M (Option Packet) → Arrival
  breaks : Arrival

module _ (u : Setup) where
  -- CoreThread, over what arrives: whether it has ended, and the client.
  unfoldable pub core_thread : List Arrival → Client → Result (Bool × Client)
  core_thread [] c = ok (not (is_connected c.peer), c)
  core_thread (a ∷ rest) c = elim (is_connected c.peer) [
    | false ↦ ok (true, c)
    | true ↦ elim a [
      | breaks ↦
          let c1 = reset_socket (record c { peer = set_connected false c.peer }) in
          ok (true, send_to_gui u.now [] b'e' (codes "Disconnected!") c1)
      | arrives recv ↦ elim (update u recv c) [
        | err e ↦ err e
        | ok (still, c1) ↦ core_thread rest c1
      ]
    ]
  ]
