-- ===== src/Client.antt =====
-- src/Client/UserChat: the chat client. One thread receives messages and keeps the lists of friends
-- and groups; another asks the user for commands. Both act on one `UserChat`.
pub mod State
pub mod Names
pub mod Friends
pub mod Groups
pub mod Receive
pub mod FriendRequests
pub mod Notices
pub mod Blocking
pub mod GroupRequests
pub mod GroupMembers
pub mod Files
