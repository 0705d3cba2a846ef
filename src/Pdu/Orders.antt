-- ===== src/Pdu/Orders.antt =====
-- protocol/pdu/orders.go: drawing orders.
pub mod Fields
pub mod Primary
pub mod Memory
pub mod Polygon
pub mod Brushes
pub mod Secondary
pub mod Glyphs
pub mod ColorTable
pub mod Process
pub mod Encoded
pub mod Caches
pub mod Blits
pub mod Stream
