-- ===== src/Prelude/Int.antt =====
-- Signed integers over the native numbers, and the 64-bit range.
use bit_torrent_client.Prelude.Tests.{ltb, if◌then◌else◌}
use Prim.Native.Nat.{ℕ, ◌-◌, ◌<◌, ◌^◌, ◌%◌}

-- `negsuc n` is -(n + 1).
pub data ℤ : Type 0 where
  pos : ℕ → ℤ
  negsuc : ℕ → ℤ

-- The values of `int64_t`.
abbrev pub IsInt64 : ℤ → Type 0
IsInt64 (pos n) = n < 2 ^ 63
IsInt64 (negsuc n) = n < 2 ^ 63

-- `static_cast<uint64_t>` of an `int64_t`, and back.
abbrev pub to_u64 : ℤ → ℕ
to_u64 (pos n) = n % 2 ^ 64
to_u64 (negsuc n) = (2 ^ 64 - 1 - n) % 2 ^ 64

-- `static_cast<int>` of a 64-bit integer: the low 32 bits, read as a signed number.
abbrev pub to_i32 : ℤ → ℤ
to_i32 z =
    let low = to_u64 z % 2 ^ 32 in if ltb low (2 ^ 31) then pos low else negsuc (2 ^ 32 - 1 - low)
