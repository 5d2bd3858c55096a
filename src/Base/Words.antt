-- ===== src/Base/Words.antt =====
-- Bytes and machine words: casts, shifts, and the big-endian forms of encoding/binary.
use Prim.Native.Nat.{ℕ, ◌+◌, ◌*◌, ◌/◌, ◌%◌, ◌^◌, ◌<◌}
use mathlib.Core.Path.{◌≡◌}
use mathlib.Core.List.{List, ◌∷◌}
use native.Mathlib.Omega.{arith}

-- The conversions `byte(x)`, `uint16(x)` and `uint32(x)` keep the low bits.
abbrev pub u8 : ℕ → ℕ
u8 x = x % 256

abbrev pub u16 : ℕ → ℕ
u16 x = x % 65536

abbrev pub u32 : ℕ → ℕ
u32 x = x % 2 ^ 32

abbrev pub IsByte : ℕ → Type 0
IsByte b = b < 256

abbrev pub IsU16 : ℕ → Type 0
IsU16 x = x < 65536

abbrev pub IsU32 : ℕ → Type 0
IsU32 x = x < 2 ^ 32

-- `x >> k`
abbrev pub shr : ℕ → ℕ → ℕ
shr x k = x / 2 ^ k

-- `byte(x>>8), byte(x)`
abbrev pub bytes16 : ℕ → List ℕ → List ℕ
bytes16 x rest = u8 (shr x 8) ∷ u8 x ∷ rest

-- `byte(x>>24), byte(x>>16), byte(x>>8), byte(x)`
abbrev pub bytes32 : ℕ → List ℕ → List ℕ
bytes32 x rest = u8 (shr x 24) ∷ u8 (shr x 16) ∷ u8 (shr x 8) ∷ u8 x ∷ rest

-- `binary.BigEndian.Uint16` and `Uint32`
abbrev pub be16 : ℕ → ℕ → ℕ
be16 hi lo = hi * 256 + lo

abbrev pub be32 : ℕ → ℕ → ℕ → ℕ → ℕ
be32 a b c d = a * 16777216 + b * 65536 + c * 256 + d

pub be16_bytes : (x : ℕ) → IsU16 x → be16 (u8 (shr x 8)) (u8 x) ≡ x
be16_bytes x h = omega arith

pub be32_bytes : (x : ℕ) → IsU32 x → be32 (u8 (shr x 24)) (u8 (shr x 16)) (u8 (shr x 8)) (u8 x) ≡ x
be32_bytes x h = omega arith
