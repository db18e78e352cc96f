-- ===== src/Utils/Word.antt =====
-- Unsigned machine words of 32 and 64 bits, with the wrap-around written out.
use latin_squares_diploma_it.Prelude.{ℕ, ◌+◌, ◌-◌, ◌*◌, ◌%◌}

abbrev pub u32_mod : ℕ
u32_mod = 4294967296

abbrev pub u64_mod : ℕ
u64_mod = 18446744073709551616

abbrev pub uint64_max : ℕ
uint64_max = 18446744073709551615

abbrev pub add32 : ℕ → ℕ → ℕ
add32 a b = (a + b) % u32_mod

abbrev pub sub32 : ℕ → ℕ → ℕ
sub32 a b = (a + u32_mod - b) % u32_mod

abbrev pub mul64 : ℕ → ℕ → ℕ
mul64 a b = (a * b) % u64_mod
