-- ===== src/SealUtil.antt =====
-- The loops over words of src/seal/seal_util.cpp and of the kernels.
pub mod Words
pub mod Residues
