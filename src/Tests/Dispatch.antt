-- ===== src/Tests/Dispatch.antt =====
-- Instances of the theorems on Session::Update of the server.
use project_secure_chat.Base.{◌≡◌, refl, true, false, List, [], ◌∷◌, arith}
use project_secure_chat.Base.Result.{ok}
use project_secure_chat.Crypto.Toy.{toy}
use project_secure_chat.Opcode.Defs.{cmsg_login, cmsg_message, smsg_queue_position}
use project_secure_chat.Packet.Defs.{Packet, new_packet}
use project_secure_chat.Peer.State.{Config, new_server, new_client, is_authenticated}
use project_secure_chat.Login.Server.{login_timer, generate_new_key}
use project_secure_chat.Wire.Socket.{send_packet_to_socket}
use project_secure_chat.Wire.Kept.{send_kept}
use project_secure_chat.Dispatch.Server.{update}
use project_secure_chat.Dispatch.Host.{Host, Setup, actions, tick, publish}
use project_secure_chat.Dispatch.Outsiders.{Harmless, outsiders_lem}
use project_secure_chat.Tests.Server.{server}
use project_secure_chat.Tests.Xml.{messages}

abbrev config : Config
config = record {
  rsa_prefix = [];
  rsa_my_keys = [];
  rsa_client_pub_key = [];
  rsa_server_pub_key = [];
  key_refresh_interval = 60;
  login_timeout = 10;
}

abbrev setup : Setup
setup = record {
  ssl = toy;
  xml = messages;
  cfg = config;
  be = true;
  known = λ name. true;
  send = send_packet_to_socket toy true 0;
}

-- A session that has just connected, and what it sends.
abbrev host : Host
host = record { peer = new_server 0 0; world = server; waiting = false }

abbrev packets : List Packet
packets = new_packet smsg_queue_position ∷ new_packet cmsg_message ∷ new_packet cmsg_login ∷ []

ticks : tick setup 0 0 host ≡ ok (publish setup 0 host.peer host)
unfolding tick login_timer generate_new_key new_server new_client is_authenticated
ticks = refl

outsiders_lem_example :
    (d' : Host) × (rest : List Packet) × (update (actions setup 0) true 0 packets host
      ≡ ok (d'.peer.opened, (d', rest)))
    × Harmless setup 0 server d'
outsiders_lem_example =
    outsiders_lem setup 0 (send_kept toy true 0) true 0 packets host
      (publish setup 0 host.peer host) (omega arith, (omega arith, (omega arith, tt))) ticks
