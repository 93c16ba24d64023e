-- ===== src/Protocol.antt =====
-- protocol/: what client and server say to each other, and the processes that transfer a file.
pub mod Request
pub mod Turns
pub mod Server
pub mod Client
pub mod Download
pub mod Placing
pub mod Upload
pub mod Commands
pub mod Joining
pub mod Parent
pub mod Uploads
pub mod Sending
pub mod Session
