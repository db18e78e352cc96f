-- ===== src/Input.antt =====
-- localsearch/main.cpp: reading of formulas and assignments, the program's arguments, and the printed
-- result.
pub mod Token
pub mod Sections
pub mod Dimacs
pub mod Solution
pub mod Lines
