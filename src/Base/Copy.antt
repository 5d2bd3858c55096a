-- ===== src/Base/Copy.antt =====
-- Copies between slices, as the builtin `copy` makes them.
use Prim.Native.Nat.{ℕ, zero, suc, ◌+◌, ◌-◌, ◌≤◌, ◌<◌}
use mathlib.Core.Path.{◌≡◌, refl, ap, ◌∙◌}
use mathlib.Core.List.{List, [], ◌∷◌}
use native.Mathlib.Omega.{arith}
use halo.Base.Lists.{length, take, drop, slice, get_or, at}

module _ {ℓ} {A : Type ℓ} where
  -- `copy(dst[off:], src)`: as many elements as both slices have.
  abbrev pub copy : List A → ℕ → List A → List A
  copy [] off src = []
  copy (d ∷ dst) (suc off) src = d ∷ copy dst off src
  copy (d ∷ dst) zero [] = d ∷ dst
  copy (d ∷ dst) zero (s ∷ src) = s ∷ copy dst zero src

  pub length-copy : (dst : List A) (off : ℕ) (src : List A) → length (copy dst off src) ≡ length dst
  length-copy [] off src = refl
  length-copy (d ∷ dst) (suc off) src = omega (arith, length-copy dst off src)
  length-copy (d ∷ dst) zero [] = refl
  length-copy (d ∷ dst) zero (s ∷ src) = omega (arith, length-copy dst zero src)

  pub get_or-copy_in :
      (dst : List A) (off : ℕ) (src : List A) (j k : ℕ) (z : A)
      → j ≡ off + k
      → k < length src
      → j < length dst
      → get_or (copy dst off src) j z ≡ get_or src k z
  get_or-copy_in [] off src j k z e h l = absurd (omega arith)
  get_or-copy_in (d ∷ dst) (suc off) src zero k z e h l = absurd (omega arith)
  get_or-copy_in (d ∷ dst) (suc off) src (suc j) k z e h l =
      get_or-copy_in dst off src j k z (omega arith) h (omega arith)
  get_or-copy_in (d ∷ dst) zero [] j k z e h l = absurd (omega arith)
  get_or-copy_in (d ∷ dst) zero (s ∷ src) zero zero z e h l = refl
  get_or-copy_in (d ∷ dst) zero (s ∷ src) zero (suc k) z e h l = absurd (omega arith)
  get_or-copy_in (d ∷ dst) zero (s ∷ src) (suc j) zero z e h l = absurd (omega arith)
  get_or-copy_in (d ∷ dst) zero (s ∷ src) (suc j) (suc k) z e h l =
      get_or-copy_in dst zero src j k z (omega arith) (omega arith) (omega arith)

  pub get_or-copy_before :
      (dst : List A) (off : ℕ) (src : List A) (j : ℕ) (z : A)
      → j < off
      → get_or (copy dst off src) j z ≡ get_or dst j z
  get_or-copy_before [] off src j z h = refl
  get_or-copy_before (d ∷ dst) (suc off) src zero z h = refl
  get_or-copy_before (d ∷ dst) (suc off) src (suc j) z h =
      get_or-copy_before dst off src j z (omega arith)
  get_or-copy_before (d ∷ dst) zero src j z h = absurd (omega arith)

  pub get_or-copy_after :
      (dst : List A) (off : ℕ) (src : List A) (j : ℕ) (z : A)
      → off + length src ≤ j
      → get_or (copy dst off src) j z ≡ get_or dst j z
  get_or-copy_after [] off src j z h = refl
  get_or-copy_after (d ∷ dst) (suc off) src zero z h = absurd (omega arith)
  get_or-copy_after (d ∷ dst) (suc off) src (suc j) z h =
      get_or-copy_after dst off src j z (omega arith)
  get_or-copy_after (d ∷ dst) zero [] j z h = refl
  get_or-copy_after (d ∷ dst) zero (s ∷ src) zero z h = absurd (omega arith)
  get_or-copy_after (d ∷ dst) zero (s ∷ src) (suc j) z h =
      get_or-copy_after dst zero src j z (omega arith)

  pub take-copy_zero :
      (n k : ℕ) (dst src : List A)
      → n ≤ k
      → n ≤ length dst
      → n ≤ length src
      → take n (copy dst 0 (take k src)) ≡ take n src
  take-copy_zero zero k dst src l h m = refl
  take-copy_zero (suc n) zero dst src l h m = absurd (omega arith)
  take-copy_zero (suc n) (suc k) [] src l h m = absurd (omega arith)
  take-copy_zero (suc n) (suc k) (d ∷ dst) [] l h m = absurd (omega arith)
  take-copy_zero (suc n) (suc k) (d ∷ dst) (x ∷ src) l h m =
      ap (λ t. x ∷ t) (take-copy_zero n k dst src (omega arith) (omega arith) (omega arith))

pub get_or-take : (n : ℕ) (xs : List ℕ) (k : ℕ) → k < n → at (take n xs) k ≡ at xs k
get_or-take zero xs k h = absurd (omega arith)
get_or-take (suc n) [] k h = refl
get_or-take (suc n) (x ∷ xs) zero h = refl
get_or-take (suc n) (x ∷ xs) (suc k) h = get_or-take n xs k (omega arith)

pub get_or-drop : (n : ℕ) (xs : List ℕ) (k : ℕ) → at (drop n xs) k ≡ at xs (n + k)
get_or-drop zero xs k = ground arith
get_or-drop (suc n) [] k = ground arith
get_or-drop (suc n) (x ∷ xs) k = ground (arith, get_or-drop n xs k)

pub get_or-slice : (i j : ℕ) (xs : List ℕ) (k : ℕ) → k < j - i → at (slice i j xs) k ≡ at xs (i + k)
get_or-slice i j xs k h = get_or-take (j - i) (drop i xs) k h ∙ get_or-drop i xs k
