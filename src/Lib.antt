-- ===== src/Lib.antt =====
-- The local search solver for Latin squares of localsearch/: a model of its parts and what holds of
-- them.
--
-- The program reads a formula in DIMACS text with comments that describe a net of auxiliary
-- variables and a set of meta-variables (the cells of Latin squares), and improves an assignment by
-- flips: it runs through bags of meta-variables and choices of their values, evaluates the net again
-- after each trial, and counts the clauses that hold.
--
-- * Cnf models localsearch/cnf. Cnf/Literal has the literal, its DIMACS integer and the bytes of an
--   assignment (0 false, 1 true, 2 unknown); Cnf/Clause the evaluations of a clause (propagate,
--   propagateSat and the two variants with flips); Cnf/Reading the stream operators over the list of
--   integers that a stream still holds. Cnf/Propagation and Cnf/Cached hold their theorems.
-- * Net models localsearch/net. Net/Node has the classes of Node.h as one record with a gate, and
--   propagate; Net/Compute is Net::compute(units), Net/Flips is Net::compute(units, flipped).
--   Net/Gate says what a node means, Net/Consistent proves the full evaluation, Net/Ready,
--   Net/Marks, Net/Visits and Net/Incremental the incremental one, Net/OrAnd the or-of-ands node.
--   Net/Parse is Net::parse_node and Net/Finalize is Net::finalize, which gives every node its depth,
--   sorts the nodes and builds the index; Net/Restore, Net/Depths, Net/Heights, Net/Finalizes,
--   Net/Arranged, Net/Index, Net/Complete and Net/Parsed hold their theorems, Net/Cycles what happens
--   on a cycle.
-- * Solver models localsearch/solver. Solver/State has the members that an assignment and its
--   evaluation consist of, Solver/Apply is HillClimbingSolver::apply_flipped and Solver/Check is
--   check_flipped, each in two parts: the evaluation of the net, and what follows it
--   (apply_computed, check_computed). Solver/Trials, Solver/Looks and Solver/Foretold follow the
--   loops of check_flipped and hold it against apply_flipped. Solver/Bags has the meta-variables and
--   satisfyPredicateForMetavars, Solver/Pairs, Solver/Neighbours and Solver/Accepting what it lets
--   through. Solver/Tally, Solver/Literals, Solver/Steps, Solver/Toggles, Solver/Rounds and
--   Solver/Loops follow the counts through the loops over flips and clauses; Solver/Tracks and
--   Solver/Whole state what apply_flipped keeps. The watched clauses are those that the index from
--   literals to clauses lists: the constructor lists the clauses of toCompute alone, and only for
--   these are the counts kept up to date.
--   Solver/Formula is localsearch/cnf/CNF.cpp. Solver/Construct is the constructor, over the cells of
--   the squares in Solver/Cells, with Solver/Indexing (the index), Solver/Places and Solver/Placed (the
--   room for the cells), Solver/Squares (the fixed ones), Solver/Settled (the chosen and the given
--   values), Solver/Scoring and Solver/Fresh (the counts) and Solver/Constructed (the whole);
--   Solver/Reduce is reduce, with Solver/Erasing, Solver/Units, Solver/Rests and Solver/Propagated for
--   its rounds of unit propagation. Solver/Draws is random_combination_including, with Solver/Drawn;
--   Solver/Domain is satisfyPredicateForDomain, and Solver/Counts what a round of solve counts first.
-- * Input models localsearch/main.cpp: Input/Token the words of a line and what extractions take from
--   them, Input/Sections the comments of readDimacs as a state machine, with Input/Lines on the end of
--   its loop, Input/Dimacs the clauses and the whole of readDimacs, Input/Solution readFirst, the
--   arguments of the program and the assignment that main writes.
-- * Incremental models incremental/incremental.cpp: Incremental/Reading the two parsers,
--   Incremental/Rounds the loop over the groups of clauses over an interface to the CryptoMiniSat
--   solver, Incremental/Models what the written files hold, Incremental/Program main as a whole.
-- * Climb models the search itself: HillClimbingSolver::solve with the tasks of its threads, the signal
--   handler, and main of localsearch/main.cpp. Climb/Bags chooses the bags of a round, Climb/Batches
--   divides them among the threads, Climb/Worker is the task of a thread in atomic steps,
--   Climb/Threads the threads of a round under a sequence of events (a step of one thread, or a
--   signal), Climb/Round a round, the loop over the rounds and solve, Climb/Program the program.
--   Climb/Entries and Climb/Runs hold what all proofs over events share; Climb/Moves the kinds of
--   steps; Climb/Sound what the threads leave behind, Climb/Ascent what a round makes of it,
--   Climb/Tried and Climb/Explored which choices have been tried, Climb/Ends and Climb/Fair how many
--   steps a thread takes. Climb/Repeats is about the removal of repeated bags, Climb/Least and Climb/Exhaustive
--   about the loop over all bags, Climb/Optimum joins them to the end of a round.
--   Climb/Pool models what the repository adds to its copy of the thread pool in
--   localsearch/utils/thread_pool.hpp (the wait, the notification, reset_queue), Climb/Waits and
--   Climb/Asleep when the wait ends.
-- * Utils models localsearch/utils/utils.cpp: Utils/Combination (next_combination), Utils/Including
--   (contains, next_combination_including), Utils/Counting (get_number_of_combinations),
--   Utils/Odometer (nextArray) with Utils/Choices, Utils/Log (log), Utils/Random
--   (random_combination_including). Utils/Ranks and Utils/Skips are about the places of combinations,
--   Utils/Binomial has the coefficients that these are held against, Utils/Word the machine words.
-- * Prelude has what all share: tests, vectors as lists, the merge step over a sorted vector (skip,
--   is_at), signed integers, outcomes (done, fault, stuck), and sorting. Tests has runs and instances.
--
-- A vector is a list, and a position into a vector that only moves forward is the rest of the list.
-- An access out of range that the sources make without a check is a failure of the model where it can
-- happen (Net/Flips, Net/Finalize, Solver/Cells, Solver/Construct, Solver/Draws), and has a default
-- where hypotheses rule it out. Unsigned arithmetic that can wrap around is written modulo 2^32 or
-- 2^64. Loops without a bound take fuel: the clause reader one round for each literal and one more, next_combination_including C(n, k) rounds less the place it
-- starts from, log as many as the number and one, finalize as many levels as there are nodes
-- and one, reduce more rounds than the variables' bound, the comments a round for each line and two
-- more. Loops that draw until a number is new end with the list of draws. std::sort is a parameter
-- (Sort): it permutes, and sorts by the key that the comparison reads. The values of rand() are a
-- list, what an istringstream makes of a text a function to words and numbers, and an uninitialised
-- integer a parameter. What a round of solve takes from outside is an input of the round: the draws,
-- the order that std::shuffle leaves, and the events of the threads and signals in their order; each
-- task is taken to run on a thread of its own, and a round whose events leave a task unfinished is
-- stuck.
--
-- The order in which the arguments of std::swap(flipped[last], flipped[--last]) are evaluated is a
-- parameter (SwapOrder). The end of a stream leaves the variable of an extraction as it was.
--
-- Not modelled: the console output but for the lines before the search, the clock and the names of
-- the log files; the end of the loop when the number of rounds passes 2^31; fixPredicateForMetavars,
-- which has no effect; the rest of the thread pool, the SAT solvers and the framework below
-- painless-v2, which are copies of other projects; and the generator, which is written in Kotlin.
pub mod Climb
pub mod Cnf
pub mod Incremental
pub mod Input
pub mod Net
pub mod Prelude
pub mod Solver
pub mod Tests
pub mod Utils
