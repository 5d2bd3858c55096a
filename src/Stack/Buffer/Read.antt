-- ===== src/Stack/Buffer/Read.antt =====
-- protocol/tcp/buffer.go: peek, discard and read at the front of the queue.
use Prim.Native.Nat.{min}
use halo.Base.{
  ℕ, ◌+◌, ◌-◌, ◌%◌, ◌≡◌, ◌≤◌, ◌<◌, List, length, take, drop, slice, replicate, at, arith, refl,
}
use halo.Stack.Buffer.{ByteBuffer, copy, copy_out, peek, discard, read}
use halo.Base.{◌∙◌}
use halo.Base.{inl}
use halo.Base.{inr}
use halo.Base.{ap, length-take}
use halo.Base.{length-drop}
use native.Mathlib.Nat.{mod-lt}
use halo.Base.{sym}
use native.Mathlib.Nat.{mod-add-mod}
use halo.Stack.Buffer.Queue.{IsRing, queued, wrapped}
use halo.Base.{
  length-copy, get_or-copy_in, get_or-copy_before, get_or-copy_after, get_or-take, get_or-slice,
}
use halo.Base.{length-replicate}

-- What a slice holds after the two copies out of the ring.
module _ (b : ByteBuffer) (v : IsRing b) (p : List ℕ) (n : ℕ) (a : n ≤ length p)
    (held : n ≤ b.size) where
  abbrev first_part : ℕ
  first_part = min n (length b.bytes - b.head)

  first_slice : length (slice b.head (b.head + first_part) b.bytes) ≡ first_part
  first_slice = omega (
    arith,
    v.inside,
    v.fits,
    length-drop b.head b.bytes,
    length-take (b.head + first_part - b.head) (drop b.head b.bytes),
  )

  second_slice : length (take (n - first_part) b.bytes) ≡ n - first_part
  second_slice = omega (arith, v.inside, v.fits, length-take (n - first_part) b.bytes)

  abbrev result : List ℕ
  result = copy_out b p n first_part

  length-result : length result ≡ length p
  length-result =
      length-copy (copy p 0 (slice b.head (b.head + first_part) b.bytes)) first_part
        (take (n - first_part) b.bytes)
      ∙ length-copy p 0 (slice b.head (b.head + first_part) b.bytes)

  result_before : (i : ℕ) → i < first_part → at result i ≡ at b.bytes (b.head + i)
  result_before i h =
      get_or-copy_before (copy p 0 (slice b.head (b.head + first_part) b.bytes)) first_part
        (take (n - first_part) b.bytes) i 0 h
      ∙ get_or-copy_in p 0 (slice b.head (b.head + first_part) b.bytes) i i 0 (omega arith)
          (omega (arith, first_slice)) (omega arith)
      ∙ get_or-slice b.head (b.head + first_part) b.bytes i (omega arith)

  result_behind : (i : ℕ) → first_part ≤ i → i < n → at result i ≡ at b.bytes (i - first_part)
  result_behind i h k =
      get_or-copy_in (copy p 0 (slice b.head (b.head + first_part) b.bytes)) first_part
        (take (n - first_part) b.bytes) i (i - first_part) 0 (omega arith)
        (omega (arith, second_slice))
        (omega (arith, length-copy p 0 (slice b.head (b.head + first_part) b.bytes)))
      ∙ get_or-take (n - first_part) b.bytes (i - first_part) (omega arith)

  pub copied : (i : ℕ) → i < n → at result i ≡ queued b i
  copied i h = elim (wrapped b.head i (length b.bytes) v.inside (omega (arith, v.fits))) [
    | inl (k, e) ↦ result_before i (omega arith) ∙ ap (at b.bytes) (sym e)
    | inr (k, e) ↦
        result_behind i (omega arith) h ∙ ap (at b.bytes) (sym (e ∙ omega (arith, v.inside)))
  ]

  pub kept : (j : ℕ) → n ≤ j → at result j ≡ at p j
  kept j h =
      get_or-copy_after (copy p 0 (slice b.head (b.head + first_part) b.bytes)) first_part
        (take (n - first_part) b.bytes) j 0 (omega (arith, second_slice))
      ∙ get_or-copy_after p 0 (slice b.head (b.head + first_part) b.bytes) j 0
          (omega (arith, first_slice))

-- Discarding bytes that are queued removes them from the front.
pub discard-queued :
    (b : ByteBuffer) (n : ℕ)
    → IsRing b
    → n ≤ b.size
    → IsRing (discard b n)
      × ((discard b n).size ≡ b.size - n)
      × ((i : ℕ) → queued (discard b n) i ≡ queued b (n + i))
unfolding discard
discard-queued b n v h = (
  record { inside = mod-lt (b.head + n) (omega (arith, v.inside)); fits = omega (arith, v.fits) },
  refl,
  λ i.
      ap (at b.bytes)
        (mod-add-mod (b.head + n) (length b.bytes) i ∙ ap (λ x. x % length b.bytes) (omega arith)),
)

-- Peeking gives as many of the bytes asked for as are queued, from the front.
pub peek-queued :
    (b : ByteBuffer) (n : ℕ)
    → IsRing b
    → (length (peek b n) ≡ min n b.size)
      × ((i : ℕ) → i < min n b.size → at (peek b n) i ≡ queued b i)
unfolding peek
peek-queued b n v =
    let zeros : List ℕ = replicate (min n b.size) 0 in
    let room : min n b.size ≤ length zeros =
      omega (arith, length-replicate {A = ℕ} (min n b.size) 0) in
    (
      length-result b v zeros (min n b.size) room (omega arith)
          ∙ length-replicate {A = ℕ} (min n b.size) 0,
      λ i h. copied b v zeros (min n b.size) room (omega arith) i h,
    )

-- Reading into a slice fills as much of it as is queued, from the front of the queue, leaves the
-- rest of the slice, and discards what was read.
pub read-queued :
    (b : ByteBuffer) (p : List ℕ)
    → IsRing b
    → let n = (read b p).0 in
      let out = (read b p).1 in
      let c = (read b p).2 in
      (n ≡ min (length p) b.size)
      × (length out ≡ length p)
      × ((i : ℕ) → i < n → at out i ≡ queued b i)
      × ((i : ℕ) → n ≤ i → at out i ≡ at p i)
      × IsRing c
      × (c.size ≡ b.size - n)
      × ((i : ℕ) → queued c i ≡ queued b (n + i))
unfolding read
read-queued b p v =
    let n : ℕ = min (length p) b.size in
    let (ring, size, moved) = discard-queued b n v (omega arith) in
    (
      refl,
      length-result b v p n (omega arith) (omega arith),
      copied b v p n (omega arith) (omega arith),
      kept b v p n (omega arith) (omega arith),
      ring,
      size,
      moved,
    )

pub length-peek : (b : ByteBuffer) (n : ℕ) → length (peek b n) ≡ min n b.size
unfolding peek
length-peek b n =
    let zeros : List ℕ = replicate (min n b.size) 0 in
    let first : List ℕ =
      slice b.head (b.head + min (min n b.size) (length b.bytes - b.head)) b.bytes in
    length-copy (copy zeros 0 first) (min (min n b.size) (length b.bytes - b.head))
      (take (min n b.size - min (min n b.size) (length b.bytes - b.head)) b.bytes)
    ∙ length-copy zeros 0 first
    ∙ length-replicate {A = ℕ} (min n b.size) 0
