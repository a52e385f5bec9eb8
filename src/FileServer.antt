-- ===== src/FileServer.antt =====
-- src/Server/FTP_server: the server for the contents of files. A client sends commands over one
-- socket and the bytes of a file over another, which the server opens on request (PASV). The
-- names of the files that wait for a user are in Redis, their bytes on the disk.
pub mod State
pub mod Sockets
pub mod Data
pub mod Listing
pub mod Command
pub mod Session
pub mod Reactor
pub mod Words
pub mod Rules
pub mod Queue
pub mod Transfer
pub mod Upload
pub mod Download
pub mod Delivery
pub mod Keeps
pub mod Faults
pub mod Lines
pub mod Isolation
