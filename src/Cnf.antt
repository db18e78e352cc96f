-- ===== src/Cnf.antt =====
-- localsearch/cnf: literals and clauses, how a clause is evaluated under an assignment and under a
-- set of flips, and how clauses are read and printed.
pub mod Literal
pub mod Clause
pub mod Propagation
pub mod Cached
pub mod Reading
