-- ===== src/Connection.antt =====
-- src/Server/net/connection.cc: what a client's messages make the server do. A handler takes the
-- socket `fd` of the connection and the part of the message that it reads.
pub mod Ready
pub mod Outbox
pub mod Rules
pub mod Heart
pub mod Groups
pub mod Managers
pub mod Members
pub mod Joining
pub mod Chats
pub mod Friends
pub mod Files
pub mod Accounts
pub mod Receive
