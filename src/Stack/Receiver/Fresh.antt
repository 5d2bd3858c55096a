-- ===== src/Stack/Receiver/Fresh.antt =====
-- protocol/tcp/tcp.go: the data of a segment that was not received before.
use Prim.Native.Nat.{min}
use halo.Base.{
  ℕ, true, ◌+◌, ◌≡◌, ◌==◌, inl, inr, List, length, drop, arith, refl, u32, IsU32, ◌∙◌, get_or-drop,
  length-drop, Bool-cases,
}
use halo.Protocol.Tcp.{TcpPkt}
use halo.Stack.Types.{Conn, negative32}
use halo.Stack.Buffer.{write}
use halo.Stack.Buffer.Write.{write-queued}
use halo.Stack.Admission.{offset, behind}
use halo.Stack.Arrived.{fresh_data, fresh_offset, received}
use halo.Stack.Receiver.{IsReceiving, Extends}

-- Data that is written starts at the sequence number that is awaited.
pub record Fresh (p : TcpPkt) (c : Conn) (xs : List ℕ) (k : ℕ) : Type 0 where
  pub bytes : xs ≡ drop k p.payload
  pub start : u32 (p.seq_num + k) ≡ c.rcv_nxt

pub fresh_data-Fresh :
    (p : TcpPkt) (c : Conn)
    → IsU32 p.seq_num
    → IsU32 c.rcv_nxt
    → (fresh_offset p (offset p c) == 0) ≡ true
    → (k : ℕ) × Fresh p c (fresh_data p (offset p c)) k
fresh_data-Fresh p c s r h = elim (Bool-cases (negative32 (offset p c))) [
  | inl neg ↦ (
    min (behind (offset p c)) (length p.payload),
    record { bytes = rw neg; start = ground arith },
  )
  | inr pos ↦ (0, record { bytes = rw pos; start = ground arith })
]

-- What a write into the ring leaves.
wrote :
    (p : TcpPkt) (c : Conn) (k : ℕ)
    → IsReceiving c
    → u32 (p.seq_num + k) ≡ c.rcv_nxt
    → Extends p c (received (drop k p.payload) c) ((write c.rx (drop k p.payload)).0)
wrote p c k v start =
    let (count, ring, cap, size, old, new) = write-queued c.rx (drop k p.payload) v.ring in
    record {
      receiving = record { awaited = omega arith; ring = ring; capacity = cap ∙ v.capacity };
      size = size;
      old = old;
      new = λ i h. (
        k + i,
        omega (arith, count, length-drop k p.payload),
        omega (arith, start),
        new i h ∙ get_or-drop k p.payload i,
      );
      next = inl refl;
    }

pub received-Extends :
    (p : TcpPkt) (c : Conn) {xs : List ℕ} {k : ℕ}
    → IsReceiving c
    → Fresh p c xs k
    → Extends p c (received xs c) ((write c.rx xs).0)
received-Extends p c {xs} {k} v f = rw f.bytes (wrote p c k v f.start)
