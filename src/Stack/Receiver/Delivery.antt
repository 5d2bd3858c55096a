-- ===== src/Stack/Receiver/Delivery.antt =====
-- protocol/tcp/tcp.go: the segment that a connection awaits, with data that fits its window.
use halo.Base.{
  ℕ, true, false, ◌+◌, ◌≡◌, ◌≤◌, ◌<◌, ◌∙◌, length, at, arith, u32, ap, inl, inr, Bool-cases,
  if_rule, ok,
}
use halo.Protocol.Tcp.{TcpPkt}
use halo.Stack.Types.{Conn, established, seq_less}
use halo.Stack.Buffer.{ByteBuffer, write}
use halo.Stack.Buffer.Queue.{queued}
use halo.Stack.Buffer.Write.{write-queued}
use halo.Stack.Emit.{Env}
use halo.Stack.Admission.{acceptable, offset, window}
use halo.Stack.Acks.{update_window, take_ack, acked, consume, update_rtt, newer_window}
use halo.Stack.Arrived.{receive_data, receive_fin, received}
use halo.Stack.Segment.{answer, input, input_segment, input_synchronized}
use halo.Stack.Receiver.{IsReceiving, SameRx, SameRx-trans}
use halo.Stack.Receiver.Segments.{received-SameRx}
use halo.Stack.Receiver.Frame.{answer-Keeps}

-- An established connection whose reader still reads, and a segment with the flags ACK and PSH that
-- it awaits.
pub record Awaits (p : TcpPkt) (c : Conn) : Type 0 where
  pub state : c.state ≡ established
  pub reading : c.app_closed ≡ false
  pub no_fin : c.recv_fin ≡ false
  pub unsent_fin : c.fin_sent ≡ false
  pub receiving : IsReceiving c
  pub flags : p.flags ≡ 24
  pub seq : p.seq_num ≡ c.rcv_nxt
  pub ack : seq_less c.snd_nxt p.ack_num ≡ false
  pub some_data : 0 < length p.payload
  pub fits : length p.payload ≤ window c

in_window : (p : TcpPkt) (c : Conn) → Awaits p c → acceptable p c ≡ true
unfolding acceptable
in_window p c a = ground arith

pub input-synchronized :
    (p : TcpPkt) (now : ℕ) (e : Env) → Awaits p e.conn → input p now e ≡ input_synchronized p now e
unfolding input input_segment
input-synchronized p now e a = ground (arith, in_window p e.conn a)

-- What the acknowledgment of the segment leaves.
record Open (c d : Conn) : Type 0 where
  reading : d.app_closed ≡ c.app_closed
  no_fin : d.recv_fin ≡ c.recv_fin
  unsent_fin : d.fin_sent ≡ c.fin_sent
  same : SameRx c d

update_window-Open : (p : TcpPkt) (now : ℕ) (c : Conn) → Open c (update_window p now c)
update_window-Open p now c =
    if_rule (Open c) (newer_window p c) (λ _. ground arith) (λ _. ground arith)

acked-Open : (p : TcpPkt) (now : ℕ) (c : Conn) → Open c (acked p now c)
unfolding acked consume update_rtt
acked-Open p now c = ground arith

take_ack-Open :
    (p : TcpPkt) (now : ℕ) (e : Env)
    → e.conn.fin_sent ≡ false
    → (g : Env) × (take_ack p now e ≡ ok g) × Open e.conn g.conn
unfolding take_ack
take_ack-Open p now e h = elim (Bool-cases (seq_less e.conn.snd_una p.ack_num)) [
  | inl new ↦ (
    record e { conn = acked p now e.conn },
    ground (arith, acked-Open p now e.conn),
    acked-Open p now e.conn,
  )
  | inr old ↦ (e, ground arith, ground arith)
]

-- What the segment leaves: its data is queued, in order, and awaited is what follows it.
pub record Delivered (p : TcpPkt) (c d : Conn) : Type 0 where
  pub size : d.rx.size ≡ c.rx.size + length p.payload
  pub old : (i : ℕ) → i < c.rx.size → queued d.rx i ≡ queued c.rx i
  pub new : (i : ℕ) → i < length p.payload → queued d.rx (c.rx.size + i) ≡ at p.payload i
  pub awaited : d.rcv_nxt ≡ u32 (c.rcv_nxt + length p.payload)

received-Delivered :
    (p : TcpPkt) (c d : Conn)
    → IsReceiving c
    → length p.payload ≤ window c
    → SameRx (received p.payload c) d
    → Delivered p c d
received-Delivered p c d v fits s =
    let (count, ring, cap, size, old, new) = write-queued c.rx p.payload v.ring in
    let all : (write c.rx p.payload).0 ≡ length p.payload = omega arith in
    record {
      size = ap ByteBuffer.size s.rx ∙ size ∙ ap (λ n. c.rx.size + n) all;
      old = λ i h. ap (λ b. queued b i) s.rx ∙ old i h;
      new = λ i h. ap (λ b. queued b (c.rx.size + i)) s.rx ∙ new i (omega arith);
      awaited = s.rcv_nxt ∙ ap (λ n. u32 (c.rcv_nxt + n)) all;
    }

receive_data_zero :
    (p : TcpPkt) (g : Env)
    → g.conn.app_closed ≡ false
    → g.conn.recv_fin ≡ false
    → 0 < length p.payload
    → receive_data p 0 g ≡ ok (record g { conn = received p.payload g.conn })
unfolding receive_data
receive_data_zero p g a b h = ground arith

receive_data_lem :
    (p : TcpPkt) (c : Conn) (g : Env)
    → Awaits p c
    → Open c g.conn
    → receive_data p (offset p c) g ≡ ok (record g { conn = received p.payload g.conn })
receive_data_lem p c g a o =
    let zero_offset : offset p c ≡ 0 = ground (arith, a.seq, a.receiving.awaited) in
    ap (λ d. receive_data p d g) zero_offset
    ∙ receive_data_zero p g (o.reading ∙ a.reading) (o.no_fin ∙ a.no_fin) a.some_data

receive_fin_none :
    (p : TcpPkt) (wnd right now : ℕ) (g : Env) → p.flags ≡ 24 → receive_fin p wnd right now g ≡ g
unfolding receive_fin
receive_fin_none p wnd right now g h = ground arith

Open-trans : {c d f : Conn} → Open c d → Open d f → Open c f
Open-trans a b = record {
  reading = b.reading ∙ a.reading;
  no_fin = b.no_fin ∙ a.no_fin;
  unsent_fin = b.unsent_fin ∙ a.unsent_fin;
  same = SameRx-trans a.same b.same;
}

input_synchronized_lem :
    (p : TcpPkt) (now : ℕ) (e : Env)
    → Awaits p e.conn
    → (g : Env) × Open e.conn g.conn
      × (input_synchronized p now e ≡ answer p now (record g { conn = received p.payload g.conn }))
unfolding input_synchronized
input_synchronized_lem p now e a =
    let w = update_window-Open p now e.conn in
    let f : Env = record e { conn = update_window p now e.conn } in
    let (g, taken, o) = take_ack-Open p now f (w.unsent_fin ∙ a.unsent_fin) in
    let k : Open e.conn g.conn = Open-trans w o in
    let h : Env = record g { conn = received p.payload g.conn } in
    let fin =
      receive_fin_none p (window e.conn) (u32 (e.conn.rcv_nxt + window e.conn)) now h a.flags in
    (g, k, rw (taken, receive_data_lem p e.conn g a k) (ap (answer p now) fin))

-- An established connection whose reader has not closed it takes all the data of a segment that it
-- awaits and that its window has room for, whatever the acknowledgment in it.
pub input-Delivered :
    (p : TcpPkt) (now : ℕ) (e : Env) → Awaits p e.conn → Delivered p e.conn (input p now e).conn
input-Delivered p now e a =
    let (g, k, same) = input_synchronized_lem p now e a in
    let h : Env = record g { conn = received p.payload g.conn } in
    rw (input-synchronized p now e a ∙ same) (
      received-Delivered p e.conn (answer p now h).conn a.receiving a.fits
        (SameRx-trans (received-SameRx p.payload e.conn g.conn k.same) (answer-Keeps p now h)))
