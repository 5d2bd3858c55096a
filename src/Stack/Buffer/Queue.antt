-- ===== src/Stack/Buffer/Queue.antt =====
-- protocol/tcp/buffer.go: the positions of the ring as a queue.
use halo.Base.{ℕ, ◌+◌, ◌-◌, ◌%◌, ◌≡◌, ◌≤◌, ◌<◌, length, at, ltb, arith}
use native.Mathlib.Nat.{mod-eq_of_lt, mod-eq-sub-mod}
use halo.Stack.Buffer.{ByteBuffer}
use halo.Base.{◌⊎◌}
use halo.Base.{◌∙◌}
use halo.Base.{Bool-cases}
use halo.Base.{inl}
use halo.Base.{inr}

-- The head is inside the ring, and no more is held than fits.
pub record IsRing (b : ByteBuffer) : Type 0 where
  pub inside : b.head < length b.bytes
  pub fits : b.size ≤ length b.bytes

-- The byte at a position of the queue.
abbrev pub queued : ByteBuffer → ℕ → ℕ
queued b i = at b.bytes ((b.head + i) % length b.bytes)

-- The position of a queue index in the ring.
pub wrapped :
    (h i c : ℕ)
    → h < c
    → i ≤ c
    → ((h + i < c) × ((h + i) % c ≡ h + i)) ⊎ ((c ≤ h + i) × ((h + i) % c ≡ h + i - c))
wrapped h i c a b = elim (Bool-cases (ltb (h + i) c)) [
  | inl e ↦ inl (ground arith, mod-eq_of_lt (ground arith))
  | inr e ↦ inr (ground arith, mod-eq-sub-mod (ground arith) ∙ mod-eq_of_lt (ground arith))
]
