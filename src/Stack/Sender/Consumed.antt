-- ===== src/Stack/Sender/Consumed.antt =====
-- protocol/tcp/tcp.go: what an acknowledgment removes from the send queue.
use Prim.Native.Nat.{min}
use halo.Base.{ℕ, ◌+◌, ◌-◌, ◌≡◌, ◌≤◌, ltb, length, arith, if_rule, ap, refl, ◌∙◌}
use halo.Protocol.Tcp.{TcpPkt}
use halo.Stack.Types.{Conn, sub32}
use halo.Stack.Buffer.{ByteBuffer, discard}
use halo.Stack.Buffer.Queue.{IsRing, queued}
use halo.Stack.Buffer.Read.{discard-queued}
use halo.Stack.Acks.{update_rtt, consume, acked}

-- The fields that neither a measurement of the round trip time nor an acknowledgment changes.
pub record Kept (c d : Conn) : Type 0 where
  pub nxt : d.snd_nxt ≡ c.snd_nxt
  pub state : d.state ≡ c.state
  pub fin_sent : d.fin_sent ≡ c.fin_sent
  pub fin_seq : d.fin_seq ≡ c.fin_seq
  pub rx : d.rx ≡ c.rx
  pub rcv_nxt : d.rcv_nxt ≡ c.rcv_nxt
  pub recv_fin : d.recv_fin ≡ c.recv_fin

record Measured (c d : Conn) : Type 0 where
  kept : Kept c d
  tx : d.tx ≡ c.tx
  inflight : d.inflight ≡ c.inflight

update_rtt-Measured : (now : ℕ) (c : Conn) → Measured c (update_rtt now c)
unfolding update_rtt
update_rtt-Measured now c = ground arith

-- The first `k` bytes of the queue of `c` are gone in `d`.
pub record Consumed (c d : Conn) (k : ℕ) : Type 0 where
  pub kept : Kept c d
  pub inflight : d.inflight ≡ c.inflight - k
  pub ring : IsRing d.tx
  pub capacity : length d.tx.bytes ≡ length c.tx.bytes
  pub size : d.tx.size ≡ c.tx.size - k
  pub moved : (i : ℕ) → queued d.tx i ≡ queued c.tx (k + i)

consumed :
    (n now : ℕ) (c : Conn)
    → IsRing c.tx
    → c.inflight ≤ c.tx.size
    → Consumed c
        (update_rtt now (record c {
          tx = discard c.tx (min n c.inflight);
          inflight = c.inflight - min n c.inflight;
        }))
        (min n c.inflight)
unfolding discard
consumed n now c v h =
    let k : ℕ = min n c.inflight in
    let d : Conn = record c { tx = discard c.tx k; inflight = c.inflight - k } in
    let m = update_rtt-Measured now d in
    let (ring, size, moved) = discard-queued c.tx k v (omega arith) in
    record {
      kept = ground (arith, m.kept);
      inflight = m.inflight;
      ring = rw (m.tx) ring;
      capacity = ap (λ b. length (ByteBuffer.bytes b)) m.tx;
      size = ap ByteBuffer.size m.tx ∙ size;
      moved = λ i. ap (λ b. queued b i) m.tx ∙ moved i;
    }

consume-Consumed :
    (n now : ℕ) (c : Conn)
    → IsRing c.tx
    → c.inflight ≤ c.tx.size
    → Consumed c (consume n now c) (min n c.inflight)
unfolding consume
consume-Consumed n now c v h =
    if_rule (λ d. Consumed c d (min n c.inflight)) (ltb 0 c.inflight) (λ _. consumed n now c v h)
      λ k. record {
        kept = ground arith;
        inflight = ground arith;
        ring = v;
        capacity = refl;
        size = ground arith;
        moved = λ i. ap (queued c.tx) (ground arith);
      }

pub acked-Consumed :
    (p : TcpPkt) (now : ℕ) (c : Conn)
    → IsRing c.tx
    → c.inflight ≤ c.tx.size
    → Consumed c (acked p now c) (min (sub32 p.ack_num c.snd_una) c.inflight)
unfolding acked
acked-Consumed p now c v h =
    let d = consume-Consumed (sub32 p.ack_num c.snd_una) now c v h in
    record {
      kept = ground (arith, d.kept);
      inflight = d.inflight;
      ring = d.ring;
      capacity = d.capacity;
      size = d.size;
      moved = d.moved;
    }
