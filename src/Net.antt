-- ===== src/Net.antt =====
-- localsearch/net: the net of auxiliary variables, each defined by a node over literals; how the net
-- is parsed, put in order, evaluated in full, and evaluated again after flips.
pub mod Node
pub mod Gate
pub mod Compute
pub mod Consistent
pub mod Flips
pub mod Finalize
pub mod Restore
pub mod Depths
pub mod Heights
pub mod Arranged
pub mod Index
pub mod Finalizes
pub mod Complete
pub mod Cycles
pub mod Parse
pub mod Parsed
pub mod Marks
pub mod Ready
pub mod Visits
pub mod Incremental
pub mod OrAnd
