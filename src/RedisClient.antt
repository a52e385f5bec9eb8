-- ===== src/RedisClient.antt =====
-- src/Server/Redis/RedisClient.cc and RedisKeys.h: the class through which the server keeps its data
-- in Redis. A method is an action on the database; a `try` block is one of `Try`.
pub mod Try
pub mod Keys
pub mod Users
pub mod Groups
pub mod Lists
pub mod Outcomes
pub mod Kinded
pub mod Effects
pub mod Accounts
