-- ===== src/Common/Words.antt =====
-- `std::size_t` has 64 bits: sums and products wrap around, and a `curl_off_t` is converted to it.
use Prim.Native.Nat.{ℕ, ◌+◌, ◌-◌, ◌*◌, ◌%◌, ◌^◌}
use curlion.Common.Int.{ℤ, pos, negsuc}

abbrev pub size_mod : ℕ
size_mod = 2 ^ 64

abbrev pub off_limit : ℕ
off_limit = 2 ^ 63

abbrev pub size_add : ℕ → ℕ → ℕ
size_add a b = (a + b) % size_mod

abbrev pub size_sub : ℕ → ℕ → ℕ
size_sub a b = (a + size_mod - b) % size_mod

abbrev pub size_mul : ℕ → ℕ → ℕ
size_mul a b = (a * b) % size_mod

abbrev pub size_of_off : ℤ → ℕ
size_of_off (pos n) = n % size_mod
size_of_off (negsuc n) = size_mod - 1 - n % size_mod
