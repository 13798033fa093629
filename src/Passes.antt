-- ===== src/Passes.antt =====
-- The passes of src/pass over nGraph's functions, their nodes in the order of `get_ordered_ops`, and the
-- compilation that runs them.
pub mod Annotations
pub mod Compile
pub mod Liveness
