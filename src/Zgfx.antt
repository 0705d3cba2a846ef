-- ===== src/Zgfx.antt =====
-- plugin/rdpgfx/zgfx.go: the RDP8 bulk decompressor. `Ring` is the history buffer and what is written
-- through it, `Token` the Huffman table and its lookup table, `Reader` the bit reader, `Decompress`
-- the loop over the tokens.
pub mod Ring
pub mod Token
pub mod Reader
pub mod Decompress
