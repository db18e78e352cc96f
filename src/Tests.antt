-- ===== src/Tests.antt =====
-- Runs of the definitions at inputs that can be followed in the sources, and the theorems applied at
-- such inputs.
mod Utils
mod Cnf
mod Net
mod InsertionSort
mod Arranging
mod Solver
mod Bags
mod Constructing
mod Reducing
mod Input
mod Drawing
mod Incremental
mod Climbing
mod Choosing
mod Waiting
mod Idle
