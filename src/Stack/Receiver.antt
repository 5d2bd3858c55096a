-- ===== src/Stack/Receiver.antt =====
-- protocol/tcp/tcp.go: the receive side of a connection: the ring of bytes that were received in
-- order, and the sequence number that is awaited.
pub mod Fresh
pub mod Frame
pub mod Segments
pub mod Delivery
use halo.Base.{
  ℕ, Bool, true, false, ◌+◌, ◌≡◌, ◌<◌, ◌⊎◌, inl, List, length, at, arith, refl, u32, IsU32, ◌∙◌,
}
use halo.Protocol.Tcp.{TcpPkt}
use halo.Stack.Types.{Conn, receive_buffer_size, has_fin}
use halo.Stack.Buffer.{ByteBuffer}
use halo.Stack.Buffer.Queue.{IsRing, queued}

pub record IsReceivingAt (rx : ByteBuffer) (rcv_nxt : ℕ) : Type 0 where
  pub awaited : IsU32 rcv_nxt
  pub ring : IsRing rx
  pub capacity : length rx.bytes ≡ receive_buffer_size

abbrev pub IsReceiving : Conn → Type 0
IsReceiving c = IsReceivingAt c.rx c.rcv_nxt

-- The ring `rx` has `n` bytes more than that of `c`, behind those that were queued: the bytes of
-- the payload whose sequence numbers follow the one that was awaited, which moves on by them and by
-- a FIN.
pub record ExtendsTo (p : TcpPkt) (c : Conn) (rx : ByteBuffer) (rcv_nxt n : ℕ) : Type 0 where
  pub receiving : IsReceivingAt rx rcv_nxt
  pub size : rx.size ≡ c.rx.size + n
  pub old : (i : ℕ) → i < c.rx.size → queued rx i ≡ queued c.rx i
  pub new :
      (i : ℕ)
      → i < n
      → (j : ℕ) × (j < length p.payload)
        × (u32 (p.seq_num + j) ≡ u32 (c.rcv_nxt + i))
        × (queued rx (c.rx.size + i) ≡ at p.payload j)
  pub next :
      (rcv_nxt ≡ u32 (c.rcv_nxt + n))
      ⊎ ((rcv_nxt ≡ u32 (c.rcv_nxt + n + 1)) × (has_fin p.flags ≡ true))

abbrev pub Extends : TcpPkt → Conn → Conn → ℕ → Type 0
Extends p c d n = ExtendsTo p c d.rx d.rcv_nxt n

-- The receive side is the same.
pub record SameRx (c d : Conn) : Type 0 where
  pub rx : d.rx ≡ c.rx
  pub rcv_nxt : d.rcv_nxt ≡ c.rcv_nxt

pub Extends-same : (p : TcpPkt) (c : Conn) → IsReceiving c → Extends p c c 0
Extends-same p c v = record {
  receiving = v;
  size = omega arith;
  old = λ i h. refl;
  new = λ i h. elim h [ ];
  next = inl (ground (arith, v.awaited));
}

pub IsReceiving-SameRx : {c d : Conn} → SameRx c d → IsReceiving c → IsReceiving d
IsReceiving-SameRx s v = rw (s.rx, s.rcv_nxt) v

pub Extends-SameRx :
    {p : TcpPkt} {c d f : Conn} {n : ℕ} → SameRx d f → Extends p c d n → Extends p c f n
Extends-SameRx s x = rw (s.rx, s.rcv_nxt) x

pub SameRx-trans : {c d f : Conn} → SameRx c d → SameRx d f → SameRx c f
SameRx-trans s t = record { rx = t.rx ∙ s.rx; rcv_nxt = t.rcv_nxt ∙ s.rcv_nxt }
