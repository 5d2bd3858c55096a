-- ===== src/Mem/StaticString/Stored.antt =====
-- mem/static_allocator.go: Get of a fixed string after Set.
use halo.Base.{
  ℕ, ◌+◌, ◌*◌, ◌≡◌, ◌≢◌, ◌≤◌, List, [], ◌∷◌, some, if◌then◌else◌, ltb, length, take, at, set, copy,
  u8, shr, length-copy, length-set, length-take, get_or-copy_after, take-copy_zero, refl, ◌∙◌,
  arith, get_or-set_self, get_or-set_ne,
}
use halo.Mem.StaticString.{clamp_64, get_64, set_64, clamp_1k, get_1k, set_1k}
use halo.Base.{◌%◌}
use halo.Base.{ap₂}

-- The storage, with the length bytes in place, after the bytes were copied in.
module _ (s v : List ℕ) (l : ℕ) (a : l ≤ length v) (b : l ≤ length s) where
  abbrev stored : List ℕ
  stored = copy s 0 (take l v)

  stored_front : take l stored ≡ take l v
  stored_front = take-copy_zero l l s v (omega arith) b a

  stored_behind : (j : ℕ) → l ≤ j → at stored j ≡ at s j
  stored_behind j h = get_or-copy_after s 0 (take l v) j 0 (omega (arith, length-take l v))

-- Storing a non-empty string in 64 bytes keeps as many of its first bytes as its length modulo 256
-- says, at most 63, and they are read back.
pub get-set_64 :
    (s v : List ℕ)
    → length s ≡ 64
    → v ≢ []
    → (t : List ℕ) × (set_64 s v ≡ some t)
      × (length t ≡ 64)
      × (get_64 t ≡ take (if ltb 63 (length v % 256) then 63 else length v % 256) v)
unfolding get_64 set_64
get-set_64 s [] h n = absurd (n refl)
get-set_64 s (b ∷ v) h n =
    let l : ℕ = clamp_64 (b ∷ v) in
    let small : l ≤ 63 = ground arith in
    let part : l ≤ length (b ∷ v) = ground arith in
    let room : length (set s 63 l) ≡ 64 = length-set s 63 l ∙ h in
    let len : at (stored (set s 63 l) (b ∷ v) l part (omega arith)) 63 ≡ l =
      stored_behind (set s 63 l) (b ∷ v) l part (omega arith) 63 small
      ∙ get_or-set_self s 63 l 0 (omega arith) in
    (
      stored (set s 63 l) (b ∷ v) l part (omega arith),
      refl,
      length-copy (set s 63 l) 0 (take l (b ∷ v)) ∙ room,
      rw len (stored_front (set s 63 l) (b ∷ v) l part (omega arith)),
    )

-- Storing a non-empty string in 1024 bytes keeps as many of its first bytes as its length modulo
-- 65536 says, at most 1022, and they are read back.
pub get-set_1k :
    (s v : List ℕ)
    → length s ≡ 1024
    → v ≢ []
    → (t : List ℕ) × (set_1k s v ≡ some t)
      × (length t ≡ 1024)
      × (get_1k t ≡ take (if ltb 1022 (length v % 65536) then 1022 else length v % 65536) v)
unfolding get_1k set_1k
get-set_1k s [] h n = absurd (n refl)
get-set_1k s (b ∷ v) h n =
    let l : ℕ = clamp_1k (b ∷ v) in
    let lo : List ℕ = set s 1023 (u8 (shr l 8)) in
    let raw : List ℕ = set lo 1022 (u8 l) in
    let small : l ≤ 1022 = ground arith in
    let part : l ≤ length (b ∷ v) = ground arith in
    let lo_size : length lo ≡ 1024 = length-set s 1023 (u8 (shr l 8)) ∙ h in
    let size : length raw ≡ 1024 = length-set lo 1022 (u8 l) ∙ lo_size in
    let room : l ≤ length raw = omega arith in
    let low : at (stored raw (b ∷ v) l part room) 1022 ≡ u8 l =
      stored_behind raw (b ∷ v) l part room 1022 small
      ∙ get_or-set_self lo 1022 (u8 l) 0 (omega arith) in
    let high : at (stored raw (b ∷ v) l part room) 1023 ≡ u8 (shr l 8) =
      stored_behind raw (b ∷ v) l part room 1023 (omega arith)
      ∙ get_or-set_ne lo 1022 1023 (u8 l) 0 (λ e. omega arith)
      ∙ get_or-set_self s 1023 (u8 (shr l 8)) 0 (omega arith) in
    let len : at (stored raw (b ∷ v) l part room) 1023 * 256
          + at (stored raw (b ∷ v) l part room) 1022
        ≡ l =
      ap₂ (λ x y. x * 256 + y) high low ∙ omega arith in
    (
      stored raw (b ∷ v) l part room,
      refl,
      length-copy raw 0 (take l (b ∷ v)) ∙ size,
      rw len (stored_front raw (b ∷ v) l part room),
    )
