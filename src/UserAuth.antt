-- ===== src/UserAuth.antt =====
-- src/Server/UserAuth/User_auth_s.cc: the server for registration and login, and Proto/user_auth.proto.
pub mod State
pub mod Rules
pub mod Codes
pub mod Login
pub mod Register
pub mod Receive
