-- ===== src/Climb.antt =====
-- `HillClimbingSolver::solve` of localsearch/solver: the rounds of the search, in which threads try bags
-- of meta-variables, and the program of localsearch/main.cpp around it.
pub mod Bags
pub mod Batches
pub mod Worker
pub mod Threads
pub mod Round
pub mod Program
pub mod Moves
pub mod Sound
pub mod Entries
pub mod Runs
pub mod Ascent
pub mod Tried
pub mod Explored
pub mod Ends
pub mod Fair
pub mod Repeats
pub mod Exhaustive
pub mod Least
pub mod Optimum
pub mod Pool
pub mod Waits
pub mod Asleep
