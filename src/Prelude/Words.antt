-- ===== src/Prelude/Words.antt =====
-- Machine words as native numbers: a 32-bit or 16-bit word and its bytes, highest first.
use Prim.Native.Nat.{ℕ, ◌+◌, ◌*◌, ◌/◌, ◌%◌, ◌^◌, ◌<◌}
use mathlib.Core.Path.{◌≡◌}
use native.Mathlib.Omega.{arith}

abbrev pub IsU16 : ℕ → Type 0
IsU16 n = n < 2 ^ 16

abbrev pub IsU32 : ℕ → Type 0
IsU32 n = n < 2 ^ 32

-- `(n >> k) & 0xFF`
abbrev pub byte_at : ℕ → ℕ → ℕ
byte_at n k = n / 2 ^ k % 256

-- `(a << 24) | (b << 16) | (c << 8) | d` on four bytes, whose bits do not overlap.
abbrev pub join_u32 : ℕ → ℕ → ℕ → ℕ → ℕ
join_u32 a b c d = a * 2 ^ 24 + b * 2 ^ 16 + c * 2 ^ 8 + d

-- `(a << 8) | b` on two bytes.
abbrev pub join_u16 : ℕ → ℕ → ℕ
join_u16 a b = a * 2 ^ 8 + b

pub join_u32-byte_at :
    (n : ℕ) → IsU32 n → join_u32 (byte_at n 24) (byte_at n 16) (byte_at n 8) (n % 256) ≡ n
join_u32-byte_at n h = omega arith

pub join_u16-byte_at : (n : ℕ) → IsU16 n → join_u16 (byte_at n 8) (n % 256) ≡ n
join_u16-byte_at n h = omega arith
