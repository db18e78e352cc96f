-- ===== src/Utils.antt =====
-- localsearch/utils/utils.cpp: combinations and their successor, the mixed-radix counter over value
-- indices, the counting of combinations in 64 bits, and the bit length.
pub mod Word
pub mod Binomial
pub mod Combination
pub mod Including
pub mod Counting
pub mod Odometer
pub mod Log
pub mod Random
pub mod Choices
pub mod Ranks
pub mod Skips
