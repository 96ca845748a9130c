-- ===== src/Commands.antt =====
-- The commands that a user types at the client (src/client/command/chat-handler.cpp): `Table` has the
-- rows and how one is found, `Parse` what is done, `Choice` which row it is,
-- `Depth` that it ends; `Packets` has what the commands send, `Credentials` what the server reads of it,
-- `Help` the texts of the help, and `Answer` that it always says something.
pub mod Table
pub mod Parse
pub mod Choice
pub mod Depth
pub mod Packets
pub mod Credentials
pub mod Help
pub mod Answer
