-- ===== src/Base/Words.antt =====
-- 64-bit words: a value is a natural number below `word_mod`, and wraps where the source does.
use Prim.Native.Nat.{ℕ, ◌+◌, ◌-◌, ◌%◌, ◌^◌}

-- The number of values of std::uint64_t and std::size_t.
abbrev pub word_mod : ℕ
word_mod = 2 ^ 64

-- std::numeric_limits<std::uint64_t>::max()
abbrev pub word_max : ℕ
word_max = 2 ^ 64 - 1

-- a + b on std::uint64_t, with wrap-around.
abbrev pub add64 : ℕ → ℕ → ℕ
add64 a b = (a + b) % word_mod

-- a - b on std::uint64_t, with wrap-around.
abbrev pub sub64 : ℕ → ℕ → ℕ
sub64 a b = (a + word_mod - b) % word_mod
