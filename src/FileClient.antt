-- ===== src/FileClient.antt =====
-- src/Client/UserFile/FTP_client.cc: the client of the file server.
pub mod Passive
pub mod Address
pub mod State
pub mod Transfer
pub mod Upload
pub mod Download
