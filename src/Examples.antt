-- ===== src/Examples.antt =====
-- Concrete runs of the modelled code, and instances of the theorems at them.
mod Compression
mod Channels
mod Framing
mod Encoding
mod Bitmaps
mod Connection
mod Updates
