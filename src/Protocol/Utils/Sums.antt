-- ===== src/Protocol/Utils/Sums.antt =====
-- protocol/utils.go: the sum of the 16-bit words of a byte slice, and GetCheckSum.
use halo.Base.{ℕ, zero, suc, ◌+◌, ◌-◌, ◌*◌, ◌%◌, ◌^◌, ◌≤◌, ◌<◌, ◌≡◌, ap, ◌∙◌, arith}
use halo.Base.{List, [], ◌∷◌, length, set, get_or, All, IsByte, u8, shr}
use halo.Protocol.Utils.{add_words, fold_carry, get_check_sum}
use halo.Protocol.Utils.Fold.{fold_carry_done, fold_carry_zero, fold_carry_mod}

-- The exact sum, with no wrap-around. An odd last byte is the high half of a word.
abbrev pub word_sum : List ℕ → ℕ
word_sum [] = 0
word_sum (a ∷ []) = a * 256
word_sum (a ∷ b ∷ rest) = (a * 256 + b) + word_sum rest

pub word_sum-le : (l : List ℕ) → All IsByte l → 2 * word_sum l ≤ 65535 * (length l + 1)
word_sum-le [] h = omega arith
word_sum-le (a ∷ []) h = omega arith
word_sum-le (a ∷ b ∷ rest) h = omega (arith, word_sum-le rest h.1.1)

-- The uint32 accumulator does not wrap while the exact sum fits.
pub add_words-word_sum :
    (l : List ℕ) (s : ℕ) → s + word_sum l < 2 ^ 32 → add_words l s ≡ s + word_sum l
unfolding add_words
add_words-word_sum [] s h = omega arith
add_words-word_sum (a ∷ []) s h = omega arith
add_words-word_sum (a ∷ b ∷ rest) s h =
    let e : (s + (a * 256 + b)) % 2 ^ 32 ≡ s + (a * 256 + b) = omega arith in
    ap (add_words rest) e ∙ add_words-word_sum rest (s + (a * 256 + b)) (omega arith) ∙ omega arith

add_words_zero : (l : List ℕ) → word_sum l < 2 ^ 32 → add_words l 0 ≡ word_sum l
add_words_zero l h = add_words-word_sum l 0 (omega arith) ∙ omega arith

pub get_check_sum-word_sum :
    (l : List ℕ) → word_sum l < 2 ^ 32 → get_check_sum l ≡ 65535 - fold_carry 3 (word_sum l)
unfolding get_check_sum
get_check_sum-word_sum l h =
    ap (λ t. (2 ^ 32 - 1 - fold_carry 3 t) % 65536) (add_words_zero l h)
    ∙ omega (arith, fold_carry_done (word_sum l) h)

pub get_check_sum-IsU16 : (l : List ℕ) → get_check_sum l < 65536
unfolding get_check_sum
get_check_sum-IsU16 l = omega arith

-- A slice verifies exactly when its exact sum is a positive multiple of 65535.
pub get_check_sum_zero :
    (l : List ℕ)
    → word_sum l < 2 ^ 32
    → 0 < word_sum l
    → word_sum l % 65535 ≡ 0
    → get_check_sum l ≡ 0
get_check_sum_zero l h p m =
    get_check_sum-word_sum l h ∙ omega (arith, fold_carry_mod (word_sum l) h p)

-- `dbl k` is the offset of the word `k`.
abbrev pub dbl : ℕ → ℕ
dbl zero = zero
dbl (suc k) = suc (suc (dbl k))

-- `pkt[i] = byte(x >> 8); pkt[i+1] = byte(x)`
abbrev pub set_word : List ℕ → ℕ → ℕ → List ℕ
set_word l i x = set (set l i (u8 (shr x 8))) (suc i) (u8 x)

pub word_sum-set_word :
    (l : List ℕ) (k x : ℕ)
    → x < 65536
    → suc (dbl k) < length l
    → word_sum (set_word l (dbl k) x) + get_or l (dbl k) 0 * 256 + get_or l (suc (dbl k)) 0
      ≡ word_sum l + x
word_sum-set_word [] k x hx h = absurd (omega arith)
word_sum-set_word (a ∷ []) k x hx h = absurd (omega arith)
word_sum-set_word (a ∷ b ∷ rest) zero x hx h = omega arith
word_sum-set_word (a ∷ b ∷ rest) (suc k) x hx h =
    omega (arith, word_sum-set_word rest k x hx (omega arith))

complement_sum :
    (w : ℕ)
    → w < 2 ^ 32
    → (0 < w + (65535 - fold_carry 3 w)) × ((w + (65535 - fold_carry 3 w)) % 65535 ≡ 0)
complement_sum zero h = rw fold_carry_zero (omega arith)
complement_sum (suc w) h = rw (fold_carry_mod (suc w) h (omega arith)) (omega arith)

-- A slice whose word `k` is zero verifies once its own checksum is written there.
pub seal :
    (l : List ℕ) (k : ℕ)
    → word_sum l + 65535 < 2 ^ 32
    → suc (dbl k) < length l
    → get_or l (dbl k) 0 ≡ 0
    → get_or l (suc (dbl k)) 0 ≡ 0
    → get_check_sum (set_word l (dbl k) (get_check_sum l)) ≡ 0
seal l k h lt z0 z1 =
    let c : ℕ = get_check_sum l in
    let e : c ≡ 65535 - fold_carry 3 (word_sum l) = get_check_sum-word_sum l (omega arith) in
    let written : word_sum (set_word l (dbl k) c) ≡ word_sum l + c =
      omega (arith, word_sum-set_word l k c (get_check_sum-IsU16 l) lt) in
    let (p, m) = complement_sum (word_sum l) (omega arith) in
    get_check_sum_zero (set_word l (dbl k) c) (omega (arith, written, get_check_sum-IsU16 l))
      (rw (written, e) p) (rw (written, e) m)
