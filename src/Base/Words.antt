-- ===== src/Base/Words.antt =====
-- `size_t` and `uint64_t` arithmetic, which wraps at 2 ^ 64, and `uint32_t`, at 2 ^ 32.
use Prim.Native.Nat.{ℕ, ◌+◌, ◌-◌, ◌*◌, ◌%◌}

abbrev pub size_mod : ℕ
size_mod = 18446744073709551616

abbrev pub add_size : ℕ → ℕ → ℕ
add_size a b = (a + b) % 18446744073709551616

-- `-` on ℕ stops at 0, so the modulus is added first.
abbrev pub sub_size : ℕ → ℕ → ℕ
sub_size a b = (a + 18446744073709551616 - b) % 18446744073709551616

abbrev pub mul_size : ℕ → ℕ → ℕ
mul_size a b = a * b % 18446744073709551616

abbrev pub u32 : ℕ → ℕ
u32 a = a % 4294967296
