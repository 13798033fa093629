-- ===== src/Tests.antt =====
-- A small backend, and each theorem with hypotheses applied to concrete inputs.
mod Toy
mod Words
mod Elements
mod Tensors
mod Messages
mod World
mod Parameters
mod Padding
mod Products
mod Sessions
mod Configurations
mod Circuits
mod Graphs
