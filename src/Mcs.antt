-- ===== src/Mcs.antt =====
-- protocol/t125/mcs.go: the multiple channel service, its connection sequence and its data.
pub mod Connect
pub mod Client
pub mod Data
