-- ===== src/Incremental.antt =====
-- incremental/incremental.cpp: groups of clauses are added to a SAT solver one after the other, and the
-- model after each is written to a file.
pub mod Reading
pub mod Rounds
pub mod Models
pub mod Program
