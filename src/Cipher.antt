-- ===== src/Cipher.antt =====
-- The operations on ciphertexts and encoded plaintexts of src/seal/seal_util.cpp, and the rescaling and
-- the lazy reduction of src/seal/kernel.
pub mod PlainOps
pub mod Match
pub mod Encode
pub mod Rescale
