-- ===== src/Opcode/Defs.antt =====
-- src/shared/networking/opcode.h and both tables of handlers.
use Prim.Native.String.{String}
use project_secure_chat.Base.{ℕ, List, [], ◌∷◌}

-- enum MessageTypes
abbrev pub msg_null_action : ℕ
msg_null_action = 0

abbrev pub cmsg_ping : ℕ
cmsg_ping = 1

abbrev pub smsg_ping : ℕ
smsg_ping = 2

abbrev pub smsg_queue_position : ℕ
smsg_queue_position = 3

abbrev pub smsg_system_message : ℕ
smsg_system_message = 4

abbrev pub cmsg_message : ℕ
cmsg_message = 5

abbrev pub smsg_message : ℕ
smsg_message = 6

abbrev pub cmsg_whisp : ℕ
cmsg_whisp = 7

abbrev pub smsg_whisp : ℕ
smsg_whisp = 8

abbrev pub cmsg_create_channel : ℕ
cmsg_create_channel = 9

abbrev pub cmsg_join_channel : ℕ
cmsg_join_channel = 10

abbrev pub smsg_join_channel : ℕ
smsg_join_channel = 11

abbrev pub cmsg_leave_channel : ℕ
cmsg_leave_channel = 12

abbrev pub smsg_leave_channel : ℕ
smsg_leave_channel = 13

abbrev pub cmsg_channel_list : ℕ
cmsg_channel_list = 14

abbrev pub cmsg_channel_info : ℕ
cmsg_channel_info = 15

abbrev pub cmsg_login : ℕ
cmsg_login = 16

abbrev pub smsg_login : ℕ
smsg_login = 17

abbrev pub cmsg_refresh_key : ℕ
cmsg_refresh_key = 18

abbrev pub smsg_refresh_key : ℕ
smsg_refresh_key = 19

abbrev pub cmsg_users_channel_list : ℕ
cmsg_users_channel_list = 20

abbrev pub smsg_users_channel_list : ℕ
smsg_users_channel_list = 21

abbrev pub num_msg_types : ℕ
num_msg_types = 22

pub data SessionReqStatus : Type 0 where
  logging logged transfer logout never unhandled : SessionReqStatus

pub data PacketProcessing : Type 0 where
  inplace threadunsafe threadsafe : PacketProcessing

-- The table is one of member functions: a constructor stands for each that it names.
pub data ServerHandler : Type 0 where
  handle_null handle_ping handle_server_side handle_message handle_whisp handle_create_channel
        handle_join_channel handle_leave_channel handle_list_channel handle_login
        handle_refresh_key :
      ServerHandler

pub record OpcodeHandler {ℓ} (H : Type ℓ) : Type ℓ where
  pub name : String
  pub status : SessionReqStatus
  pub processing : PacketProcessing
  pub handler : H

abbrev row {ℓ} : {H : Type ℓ} → String → SessionReqStatus → PacketProcessing → H → OpcodeHandler H
row name status processing handler = record {
  name = name;
  status = status;
  processing = processing;
  handler = handler;
}

pub data ClientHandler : Type 0 where
  handle_null handle_client_side handle_ping handle_queue_pos handle_server_message handle_message
        handle_whisp handle_join_channel handle_leave_channel handle_login handle_refresh_key
        handle_channel_users_list :
      ClientHandler

-- opcodeTable of the server.
unfoldable pub opcode_table : List (OpcodeHandler ServerHandler)
opcode_table =
    row "MSG_NULL_ACTION" never inplace ServerHandler.handle_null
    ∷ row "CMSG_PING" logged inplace ServerHandler.handle_ping
    ∷ row "SMSG_PING" logged inplace ServerHandler.handle_server_side
    ∷ row "SMSG_QUEUE_POSITION" logging inplace ServerHandler.handle_server_side
    ∷ row "SMSG_SYSTEM_MESSAGE" logged inplace ServerHandler.handle_server_side
    ∷ row "CMSG_MESSAGE" logged inplace ServerHandler.handle_message
    ∷ row "SMSG_MESSAGE" logged inplace ServerHandler.handle_server_side
    ∷ row "CMSG_WHISP" logged inplace ServerHandler.handle_whisp
    ∷ row "SMSG_WHISP" logged inplace ServerHandler.handle_server_side
    ∷ row "CMSG_CREATE_CHANNEL" logged inplace ServerHandler.handle_create_channel
    ∷ row "CMSG_JOIN_CHANNEL" logged threadunsafe ServerHandler.handle_join_channel
    ∷ row "SMSG_JOIN_CHANNEL" logged inplace ServerHandler.handle_server_side
    ∷ row "CMSG_LEAVE_CHANNEL" logged threadunsafe ServerHandler.handle_leave_channel
    ∷ row "SMSG_LEAVE_CHANNEL" logged inplace ServerHandler.handle_server_side
    ∷ row "CMSG_CHANNEL_LIST" logged inplace ServerHandler.handle_list_channel
    ∷ row "CMSG_CHANNEL_INFO" logged inplace ServerHandler.handle_null
    ∷ row "CMSG_LOGIN" logging threadunsafe ServerHandler.handle_login
    ∷ row "SMSG_LOGIN" logging inplace ServerHandler.handle_server_side
    ∷ row "CMSG_REFRESH_KEY" logging inplace ServerHandler.handle_refresh_key
    ∷ row "SMSG_REFRESH_KEY" logging inplace ServerHandler.handle_server_side
    ∷ row "CMSG_USERS_CHANNEL_LIST" logging inplace ServerHandler.handle_null
    ∷ row "SMSG_USERS_CHANNEL_LIST" logging inplace ServerHandler.handle_server_side
    ∷ []

-- opcodeTable of the client.
unfoldable pub client_opcode_table : List (OpcodeHandler ClientHandler)
client_opcode_table =
    row "MSG_NULL_ACTION" never inplace ClientHandler.handle_null
    ∷ row "CMSG_PING" logged inplace ClientHandler.handle_client_side
    ∷ row "SMSG_PING" logged inplace ClientHandler.handle_ping
    ∷ row "SMSG_QUEUE_POSITION" logging inplace ClientHandler.handle_queue_pos
    ∷ row "SMSG_SYSTEM_MESSAGE" logged inplace ClientHandler.handle_server_message
    ∷ row "CMSG_MESSAGE" logged inplace ClientHandler.handle_client_side
    ∷ row "SMSG_MESSAGE" logged inplace ClientHandler.handle_message
    ∷ row "CMSG_WHISP" logged inplace ClientHandler.handle_client_side
    ∷ row "SMSG_WHISP" logged inplace ClientHandler.handle_whisp
    ∷ row "CMSG_CREATE_CHANNEL" logged inplace ClientHandler.handle_client_side
    ∷ row "CMSG_JOIN_CHANNEL" logged inplace ClientHandler.handle_client_side
    ∷ row "SMSG_JOIN_CHANNEL" logged inplace ClientHandler.handle_join_channel
    ∷ row "CMSG_LEAVE_CHANNEL" logged inplace ClientHandler.handle_client_side
    ∷ row "SMSG_LEAVE_CHANNEL" logged inplace ClientHandler.handle_leave_channel
    ∷ row "CMSG_CHANNEL_LIST" logged inplace ClientHandler.handle_client_side
    ∷ row "CMSG_CHANNEL_INFO" logged inplace ClientHandler.handle_client_side
    ∷ row "CMSG_LOGIN" logging inplace ClientHandler.handle_client_side
    ∷ row "SMSG_LOGIN" logging inplace ClientHandler.handle_login
    ∷ row "CMSG_REFRESH_KEY" logging inplace ClientHandler.handle_client_side
    ∷ row "SMSG_REFRESH_KEY" logging inplace ClientHandler.handle_refresh_key
    ∷ row "CMSG_USERS_CHANNEL_LIST" logging inplace ClientHandler.handle_client_side
    ∷ row "SMSG_USERS_CHANNEL_LIST" logging inplace ClientHandler.handle_channel_users_list
    ∷ []
