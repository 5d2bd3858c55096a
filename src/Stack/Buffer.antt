-- ===== src/Stack/Buffer.antt =====
-- protocol/tcp/buffer.go: the ring of bytes behind the send and receive queues.
pub mod Queue
pub mod Write
pub mod Read
use Prim.Native.Nat.{min}
use halo.Base.{
  ℕ, zero, suc, ◌+◌, ◌-◌, ◌%◌, List, [], ◌∷◌, length, take, drop, slice, replicate, ltb,
  if◌then◌else◌,
}
use halo.Base.{copy}

pub record ByteBuffer : Type 0 where
  pub bytes : List ℕ
  pub head : ℕ
  pub size : ℕ

-- The number of bytes written, and the buffer after it.
unfoldable pub write : ByteBuffer → List ℕ → ℕ × ByteBuffer
write b p =
    let n = min (length p) (length b.bytes - b.size) in
    let tail = (b.head + b.size) % length b.bytes in
    let first = min n (length b.bytes - tail) in
    (
      n,
      record b {
        bytes = copy (copy b.bytes tail (take first p)) 0 (slice first n p);
        size = b.size + n;
      },
    )

-- `copy(p, b.bytes[b.head:b.head+first]); copy(p[first:], b.bytes[:n-first])`
abbrev pub copy_out : ByteBuffer → List ℕ → ℕ → ℕ → List ℕ
copy_out b p n first =
    copy (copy p 0 (slice b.head (b.head + first) b.bytes)) first (take (n - first) b.bytes)

unfoldable pub peek : ByteBuffer → ℕ → List ℕ
peek b n = let n = min n b.size in copy_out b (replicate n 0) n (min n (length b.bytes - b.head))

unfoldable pub discard : ByteBuffer → ℕ → ByteBuffer
discard b n = record b { head = (b.head + n) % length b.bytes; size = b.size - n }

-- The number of bytes read, the caller's slice `p` after it, and the buffer.
unfoldable pub read : ByteBuffer → List ℕ → ℕ × List ℕ × ByteBuffer
unfolding discard
read b p =
    let n = min (length p) b.size in
    (n, copy_out b p n (min n (length b.bytes - b.head)), discard b n)
