-- ===== src/Examples.antt =====
-- Concrete inputs: runs of the model, and the theorems at inputs that meet their hypotheses.
mod Data
mod Runs
mod Witnesses
mod Traversal
mod Signing
