-- ===== src/Solver.antt =====
-- localsearch/solver/HillClimbingSolver.h and HillClimbingSolver.cpp: the state of the search and
-- its operations.
pub mod Cells
pub mod Places
pub mod Fresh
pub mod Placed
pub mod Settled
pub mod Squares
pub mod State
pub mod Apply
pub mod Tally
pub mod Literals
pub mod Steps
pub mod Toggles
pub mod Rounds
pub mod Loops
pub mod Tracks
pub mod Whole
pub mod Check
pub mod Trials
pub mod Looks
pub mod Foretold
pub mod Bags
pub mod Pairs
pub mod Neighbours
pub mod Accepting
pub mod Formula
pub mod Draws
pub mod Drawn
pub mod Domain
pub mod Counts
pub mod Reduce
pub mod Construct
pub mod Scoring
pub mod Indexing
pub mod Constructed
pub mod Erasing
pub mod Units
pub mod Rests
pub mod Propagated
