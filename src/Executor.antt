-- ===== src/Executor.antt =====
-- `HESealExecutable::call` of src/seal/he_seal_executable.cpp: what is done to the inputs, the loop over
-- the operations of the graph, and the tensors that it creates.
pub mod Loop
pub mod Inputs
pub mod Create
