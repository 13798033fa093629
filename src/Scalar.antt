-- ===== src/Scalar.antt =====
-- The element-wise kernels of src/seal/kernel on `HEType` objects. A vector argument is the list of
-- the addresses of its elements; the OpenMP loops are modelled in the order of the indices.
pub mod Plain
pub mod Arith
pub mod Loops
pub mod Negate
pub mod Multiply
pub mod Decrypted
