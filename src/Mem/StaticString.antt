-- ===== src/Mem/StaticString.antt =====
-- mem/static_allocator.go: the strings of fixed storage. The storage is the list of its bytes, and
-- `none` is the panic of taking the address of the first byte of an empty string.
pub mod Stored
use halo.Base.{
  ℕ, ◌-◌, ◌+◌, ◌*◌, List, [], ◌∷◌, Option, none, some, if◌then◌else◌, ltb, length, take, at, set,
  copy, u8, u16, shr,
}

-- The stored length of a StaticString64.
abbrev pub clamp_64 : List ℕ → ℕ
clamp_64 v = let l = u8 (length v) in if ltb 63 l then 63 else l

unfoldable pub get_64 : List ℕ → List ℕ
get_64 s = take (at s 63) s

unfoldable pub set_64 : List ℕ → List ℕ → Option (List ℕ)
set_64 s [] = none
set_64 s (b ∷ v) = let l = clamp_64 (b ∷ v) in some (copy (set s 63 l) 0 (take l (b ∷ v)))

-- The stored length of a StaticString1K.
abbrev pub clamp_1k : List ℕ → ℕ
clamp_1k v = let l = u16 (length v) in if ltb 1022 l then 1022 else l

unfoldable pub get_1k : List ℕ → List ℕ
get_1k s = take (at s 1023 * 256 + at s 1022) s

unfoldable pub set_1k : List ℕ → List ℕ → Option (List ℕ)
set_1k s [] = none
set_1k s (b ∷ v) =
    let l = clamp_1k (b ∷ v) in
    some (copy (set (set s 1023 (u8 (shr l 8))) 1022 (u8 l)) 0 (take l (b ∷ v)))
