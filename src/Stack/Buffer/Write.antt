-- ===== src/Stack/Buffer/Write.antt =====
-- protocol/tcp/buffer.go: write at the back of the queue.
use Prim.Native.Nat.{min}
use halo.Base.{ℕ, ◌+◌, ◌-◌, ◌%◌, ◌≡◌, ◌≤◌, ◌<◌, List, length, take, drop, slice, at, arith, refl}
use halo.Stack.Buffer.{ByteBuffer, copy, write}
use halo.Base.{◌⊎◌}
use halo.Base.{◌∙◌}
use halo.Base.{inl}
use halo.Base.{inr}
use halo.Base.{ap, length-take}
use halo.Base.{length-drop}
use native.Mathlib.Nat.{mod-lt}
use halo.Base.{sym}
use native.Mathlib.Nat.{mod-add-mod}
use halo.Stack.Buffer.Queue.{IsRing, queued, wrapped}
use halo.Base.{
  length-copy, get_or-copy_in, get_or-copy_before, get_or-copy_after, get_or-take, get_or-slice,
}

-- What the ring holds after the two copies of a write of n bytes at `tail`, of which `first` are
-- before the end.
module _ (bytes p : List ℕ) (n tail first : ℕ) (a : n ≤ length p) (b : n ≤ length bytes)
    (c : tail < length bytes) (le : first ≤ n) (fit : tail + first ≤ length bytes)
    (full : (first ≡ n) ⊎ (tail + first ≡ length bytes)) where
  abbrev filled : List ℕ
  filled = copy (copy bytes tail (take first p)) 0 (slice first n p)

  length-filled : length filled ≡ length bytes
  length-filled =
      length-copy (copy bytes tail (take first p)) 0 (slice first n p)
      ∙ length-copy bytes tail (take first p)

  length-first : length (take first p) ≡ first
  length-first = omega (arith, length-take first p)

  length-second : length (slice first n p) ≡ n - first
  length-second = omega (arith, length-take (n - first) (drop first p), length-drop first p)

  filled_first : (i : ℕ) → i < n → tail + i < length bytes → at filled (tail + i) ≡ at p i
  filled_first i h k =
      get_or-copy_after (copy bytes tail (take first p)) 0 (slice first n p) (tail + i) 0
        (ground (arith, length-second))
      ∙ get_or-copy_in bytes tail (take first p) (tail + i) i 0 refl (ground (arith, length-first))
          k
      ∙ get_or-take first p i (ground arith)

  filled_second :
      (i : ℕ) → i < n → length bytes ≤ tail + i → at filled (tail + i - length bytes) ≡ at p i
  filled_second i h k =
      get_or-copy_in (copy bytes tail (take first p)) 0 (slice first n p) (tail + i - length bytes)
        (tail + i - length bytes) 0 (omega arith) (ground (arith, length-second))
        (ground (arith, length-copy bytes tail (take first p)))
      ∙ get_or-slice first n p (tail + i - length bytes) (ground arith)
      ∙ ap (at p) (ground arith)

  filled_else : (j : ℕ) → j < tail → tail + n ≤ length bytes + j → at filled j ≡ at bytes j
  filled_else j h k =
      get_or-copy_after (copy bytes tail (take first p)) 0 (slice first n p) j 0
        (ground (arith, length-second))
      ∙ get_or-copy_before bytes tail (take first p) j 0 h

  filled_after : (j : ℕ) → tail + n ≤ j → at filled j ≡ at bytes j
  filled_after j k =
      get_or-copy_after (copy bytes tail (take first p)) 0 (slice first n p) j 0
        (ground (arith, length-second))
      ∙ get_or-copy_after bytes tail (take first p) j 0 (ground (arith, length-first))

module _ (b : ByteBuffer) (v : IsRing b) (p : List ℕ) where
  abbrev tail_of : ℕ
  tail_of = (b.head + b.size) % length b.bytes

  abbrev count : ℕ
  count = min (length p) (length b.bytes - b.size)

  abbrev first_part : ℕ
  first_part = min count (length b.bytes - tail_of)

  tail_inside : tail_of < length b.bytes
  tail_inside = mod-lt (b.head + b.size) (omega (arith, v.inside))

  joined : (first_part ≡ count) ⊎ (tail_of + first_part ≡ length b.bytes)
  joined = ground (arith, tail_inside)

  abbrev ring : List ℕ
  ring =
      filled b.bytes p count tail_of first_part (omega arith) (omega arith) tail_inside
        (omega arith) (omega (arith, tail_inside)) joined

  abbrev position : ℕ → ℕ
  position i = (b.head + i) % length b.bytes

  position_new : (i : ℕ) → position (b.size + i) ≡ (tail_of + i) % length b.bytes
  position_new i =
      ap (λ x. x % length b.bytes) (omega arith)
      ∙ sym (mod-add-mod (b.head + b.size) (length b.bytes) i)

  written_new : (i : ℕ) → i < count → at ring (position (b.size + i)) ≡ at p i
  written_new i h =
      rw (position_new i) (elim (wrapped tail_of i (length b.bytes) tail_inside (omega arith)) [
        | inl (k, e) ↦ rw e (
            filled_first b.bytes p count tail_of first_part (omega arith) (omega arith) tail_inside
              (omega arith) (omega (arith, tail_inside)) joined i h k)
        | inr (k, e) ↦ rw e (
            filled_second b.bytes p count tail_of first_part (omega arith) (omega arith) tail_inside
              (omega arith) (omega (arith, tail_inside)) joined i h k)
      ])

  -- A position of the queue is before the tail or behind what is written.
  old_position :
      (i : ℕ)
      → i < b.size
      → ((position i < tail_of) × (tail_of + count ≤ length b.bytes + position i))
        ⊎ (tail_of + count ≤ position i)
  old_position i h = ground (
    arith,
    v.inside,
    v.fits,
    wrapped b.head i (length b.bytes) v.inside (omega (arith, v.fits)),
    wrapped b.head b.size (length b.bytes) v.inside v.fits,
  )

  written_old : (i : ℕ) → i < b.size → at ring (position i) ≡ at b.bytes (position i)
  written_old i h = elim (old_position i h) [
    | inl (k, l) ↦
        filled_else b.bytes p count tail_of first_part (omega arith) (omega arith) tail_inside
          (omega arith) (omega (arith, tail_inside)) joined (position i) k l
    | inr k ↦
        filled_after b.bytes p count tail_of first_part (omega arith) (omega arith) tail_inside
          (omega arith) (omega (arith, tail_inside)) joined (position i) k
  ]

  length-ring : length ring ≡ length b.bytes
  length-ring =
      length-filled b.bytes p count tail_of first_part (omega arith) (omega arith) tail_inside
        (omega arith) (omega (arith, tail_inside)) joined

-- Writing takes as many of the bytes as fit, behind what is queued, which stays as it was, and the
-- buffer stays a ring of the same capacity.
pub write-queued :
    (b : ByteBuffer) (p : List ℕ)
    → IsRing b
    → let n = (write b p).0 in
      let c = (write b p).1 in
      (n ≡ min (length p) (length b.bytes - b.size))
      × IsRing c
      × (length c.bytes ≡ length b.bytes)
      × (c.size ≡ b.size + n)
      × ((i : ℕ) → i < b.size → queued c i ≡ queued b i)
      × ((i : ℕ) → i < n → queued c (b.size + i) ≡ at p i)
unfolding write
write-queued b p v = (
  refl,
  record {
    inside = rw (length-ring b v p) v.inside;
    fits = rw (length-ring b v p) (omega (arith, v.fits));
  },
  length-ring b v p,
  refl,
  λ i h. rw (length-ring b v p) (written_old b v p i h),
  λ i h. rw (length-ring b v p) (written_new b v p i h),
)
