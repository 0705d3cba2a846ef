-- ===== src/Pdu.antt =====
-- protocol/pdu: the PDU layer. Drawing orders, fast-path updates and the client's handlers.
pub mod Reads
pub mod Orders
pub mod Bitmaps
pub mod Input
pub mod Surface
pub mod FastPath
pub mod Session
pub mod Redirection
pub mod SessionInfo
