-- ===== src/Base/Words.antt =====
-- Machine words: a `u64` or a `u32` is a number whose arithmetic wraps as the release build's does.
use music_fs.Base.{ℕ, ◌+◌, ◌-◌, ◌%◌, ◌^◌, ◌≤◌, ◌<◌, ◌≡◌, arith}

abbrev pub u32_mod : ℕ
u32_mod = 2 ^ 32

abbrev pub u64_mod : ℕ
u64_mod = 2 ^ 64

abbrev pub as_u32 : ℕ → ℕ
as_u32 a = a % u32_mod

abbrev pub add_u64 : ℕ → ℕ → ℕ
add_u64 a b = (a + b) % u64_mod

abbrev pub sub_u64 : ℕ → ℕ → ℕ
sub_u64 a b = (a + u64_mod - b) % u64_mod

pub add_u64-eq : (a b : ℕ) → a + b < u64_mod → add_u64 a b ≡ a + b
add_u64-eq a b h = omega arith

pub sub_u64-eq : (a b : ℕ) → b ≤ a → a < u64_mod → sub_u64 a b ≡ a - b
sub_u64-eq a b h k = omega arith
