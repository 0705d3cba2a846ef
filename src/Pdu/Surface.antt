-- ===== src/Pdu/Surface.antt =====
-- protocol/pdu/data.go: surface commands and the NSCodec.
pub mod Nrle
pub mod Runs
pub mod RoundTrip
pub mod Colors
pub mod NsCodec
pub mod Commands
