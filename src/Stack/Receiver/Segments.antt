-- ===== src/Stack/Receiver/Segments.antt =====
-- protocol/tcp/tcp.go: `input` and the receive side of a connection.
use halo.Base.{
  ℕ, true, false, ◌+◌, ◌≡◌, ◌==◌, ◌&&◌, ◌∙◌, inr, List, length, arith, refl, u32, IsU32, if_rule,
  not, some, ap, Result,
}
use halo.Protocol.Tcp.{TcpPkt}
use halo.Stack.Types.{has_fin, Conn, is_syn_sent, data_after_close}
use halo.Stack.Buffer.{write}
use halo.Stack.Emit.{notified, Env}
use halo.Stack.Admission.{establish, offset, window}
use halo.Stack.Acks.{update_window, take_ack}
use halo.Stack.Arrived.{
  receive_data, receive_fin, takes_fin, fresh_data, fresh_offset, fin_received, received,
}
use halo.Stack.Segment.{returned, input, input_synchronized}
use halo.Stack.Segment.Cases.{returned-then, input_cases, input_segment_cases}
use halo.Stack.Receiver.{
  IsReceiving, Extends, ExtendsTo, Extends-same, Extends-SameRx, SameRx, SameRx-trans,
}
use halo.Stack.Receiver.Fresh.{fresh_data-Fresh, received-Extends}
use halo.Stack.Receiver.Frame.{
  Keeps, SameRx-refl, fail-Keeps, emit-Keeps, ack-Keeps, update_window-SameRx, take_ack-Keeps,
  answer-Keeps, input_time_wait-Keeps,
}

-- Before the FIN is taken.
record Grown (p : TcpPkt) (c d : Conn) : Type 0 where
  count : ℕ
  extends : Extends p c d count
  next : d.rcv_nxt ≡ u32 (c.rcv_nxt + count)

Grown-SameRx : {p : TcpPkt} {c d f : Conn} → SameRx d f → Grown p c d → Grown p c f
Grown-SameRx s g = record {
  count = g.count;
  extends = Extends-SameRx s g.extends;
  next = s.rcv_nxt ∙ g.next;
}

Grown-same : (p : TcpPkt) (c d : Conn) → IsReceiving c → SameRx c d → Grown p c d
Grown-same p c d v s =
    Grown-SameRx s
      (record { count = 0; extends = Extends-same p c v; next = ground (arith, v.awaited) })

pub received-SameRx :
    (xs : List ℕ) (c d : Conn) → SameRx c d → SameRx (received xs c) (received xs d)
received-SameRx xs c d s = record {
  rx = ap (λ b. (write b xs).1) s.rx;
  rcv_nxt = rw (s.rx, s.rcv_nxt);
}

-- With the FIN, which has the sequence number behind the data.
with_fin :
    (p : TcpPkt) (c d : Conn) (g : Grown p c d)
    → has_fin p.flags ≡ true
    → ExtendsTo p c d.rx (u32 (d.rcv_nxt + 1)) g.count
with_fin p c d g h =
    let x = g.extends in
    record {
      receiving = record {
        awaited = omega arith;
        ring = x.receiving.ring;
        capacity = x.receiving.capacity;
      };
      size = x.size;
      old = x.old;
      new = x.new;
      next = inr (omega (arith, g.next), h);
    }

took_fin : Env → Env
took_fin e = record e {
  conn = record e.conn { recv_fin = true; rcv_nxt = u32 (e.conn.rcv_nxt + 1) };
}

fin_received_rx :
    (now : ℕ) (e : Env)
    → let f = notified (fin_received now e.conn.state (took_fin e)) in
      (f.conn.rx ≡ e.conn.rx) × (f.conn.rcv_nxt ≡ u32 (e.conn.rcv_nxt + 1))
unfolding took_fin
fin_received_rx now e = ground arith

module _ (p : TcpPkt) (c : Conn) (v : IsReceiving c) (range : IsU32 p.seq_num) where
  receive_data-Grown :
      (e : Env) → SameRx c e.conn → Grown p c (returned (receive_data p (offset p c) e)).conn
  unfolding receive_data
  receive_data-Grown e s =
      let P = λ (r : Result Env Env). Grown p c (returned r).conn in
      let xs : List ℕ = fresh_data p (offset p c) in
      if_rule P (fresh_offset p (offset p c) == 0 && (not (length xs == 0) && not e.conn.recv_fin))
        (λ h.
          let (k, fresh) = fresh_data-Fresh p c range v.awaited (ground arith) in
          if_rule P e.conn.app_closed
            (λ _. Grown-same p c _ v (SameRx-trans s (fail-Keeps (some data_after_close) true e)))
            (λ _. Grown-SameRx (received-SameRx xs c e.conn s) (record {
              count = (write c.rx xs).0;
              extends = received-Extends p c v fresh;
              next = refl;
            })))
        (λ _. Grown-same p c e.conn v s)

  receive_fin-Extends :
      (wnd right now : ℕ) (e : Env)
      → Grown p c e.conn
      → (n : ℕ) × Extends p c (receive_fin p wnd right now e).conn n
  unfolding receive_fin took_fin
  receive_fin-Extends wnd right now e g =
      if_rule (λ (f : Env). (n : ℕ) × Extends p c f.conn n) (takes_fin p wnd right e.conn)
        (λ h.
          let (rx, rcv) = fin_received_rx now e in
          (g.count, rw (rx, rcv) (with_fin p c e.conn g (ground arith))))
        (λ _. (g.count, g.extends))

input_synchronized-Extends :
    (p : TcpPkt) (now : ℕ) (e : Env)
    → IsReceiving e.conn
    → IsU32 p.seq_num
    → (n : ℕ) × Extends p e.conn (input_synchronized p now e).conn n
unfolding input_synchronized
input_synchronized-Extends p now e v range =
    let P = λ (f : Env). (n : ℕ) × Extends p e.conn f.conn n in
    let f : Env = record e { conn = update_window p now e.conn } in
    let s : SameRx e.conn f.conn = update_window-SameRx p now e.conn in
    let t : SameRx e.conn (returned (take_ack p now f)).conn =
      SameRx-trans s (take_ack-Keeps p now f) in
    let c : Conn = e.conn in
    returned-then (Keeps e) P (take_ack p now f) _ t
      (λ g k. (0, Extends-SameRx k (Extends-same p c v)))
      λ g k.
        returned-then (λ h. Grown p c h.conn) P (receive_data p (offset p c) g) _
          (receive_data-Grown p c v range g k) (λ h w. (w.count, w.extends))
          λ h w.
            let right : ℕ = u32 (c.rcv_nxt + window c) in
            let (n, x) = receive_fin-Extends p c v range (window c) right now h w in
            (n, Extends-SameRx (answer-Keeps p now (receive_fin p (window c) right now h)) x)

-- A segment for a connection past its SYN leaves the bytes that are queued for the reader and
-- appends some bytes of its payload to them, each of them the one with the sequence number that
-- is next in the stream, and what is awaited moves on by their number, and by one more only for a
-- FIN.
pub input-Extends :
    (p : TcpPkt) (now : ℕ) (e : Env)
    → IsReceiving e.conn
    → IsU32 p.seq_num
    → is_syn_sent e.conn.state ≡ false
    → (n : ℕ) × Extends p e.conn (input p now e).conn n
input-Extends p now e v range past =
    let P = λ (f : Env). (n : ℕ) × Extends p e.conn f.conn n in
    let same : (d : Conn) → SameRx e.conn d → (n : ℕ) × Extends p e.conn d n =
      λ d k. (0, Extends-SameRx k (Extends-same p e.conn v)) in
    input_cases P p now e (λ h. absurd (ground arith)) (λ _. same _ (emit-Keeps _ _ _ _ e))
      (λ _. same _ (input_time_wait-Keeps p now e)) (same _ (ack-Keeps e))
      (λ _ _.
        input_segment_cases P p now e (same _ (fail-Keeps _ false e)) (same _ (ack-Keeps e))
          (same _ (SameRx-refl e.conn))
          (λ _ _ _ _.
            let (n, x) = input_synchronized-Extends p now (establish p e) v range in
            (
              n,
              record {
                receiving = x.receiving;
                size = x.size;
                old = x.old;
                new = x.new;
                next = x.next;
              },
            ))
          (λ _ _. input_synchronized-Extends p now e v range))
