-- ===== src/Stack/Transfer.antt =====
-- protocol/tcp: a flight of data from the send queue of one connection to the receive queue of its
-- peer, through `pump`, the wire format and `input`.
use Prim.Native.Nat.{min}
use halo.Base.{
  ℕ, true, false, ◌+◌, ◌≡◌, ◌≤◌, ◌<◌, ◌∙◌, List, [], length, at, arith, refl, IsU32, IsU16, ap, sym,
  All, IsByte, inl, ok, Result,
}
use halo.Protocol.Ipv4.Laws.{IsIpv4Addr}
use halo.Protocol.Tcp.{TcpError, TcpPkt, build_tcp_pkt, parse_tcp_pkt}
use halo.Protocol.Tcp.Laws.{IsTcpPkt, parse-build_tcp}
use halo.Stack.Types.{established, seq_less, mss, can_send}
use halo.Stack.Buffer.{peek}
use halo.Stack.Buffer.Queue.{queued}
use halo.Stack.Buffer.Read.{peek-queued}
use halo.Stack.Emit.{Env, queue, emitted, connection, addr_pair}
use halo.Stack.Emit.Sent.{outbound, emit-queues}
use halo.Stack.Pump.{pump, pump_data, flight, flown}
use halo.Stack.Pump.Cases.{length-flight}
use halo.Stack.Segment.{input}
use halo.Stack.Sender.{IsSending}
use halo.Stack.Receiver.{IsReceiving}
use halo.Stack.Receiver.Delivery.{Awaits, Delivered, input-Delivered}
use halo.Stack.Admission.{window}

-- A connection that sends data when it is pumped.
pub record Ready (e : Env) : Type 0 where
  pub sending : IsSending e.conn
  pub may_send : can_send e.conn.state ≡ true
  pub idle : e.conn.inflight ≡ 0
  pub some_data : 0 < e.conn.tx.size
  pub open_window : 0 < e.conn.peer_window
  pub segment_size : 0 < e.conn.peer_mss
  pub bytes : All IsByte (peek e.conn.tx (flight e.conn))
  pub awaited : IsU32 e.conn.rcv_nxt
  pub local_port : IsU16 e.conn.local.port
  pub remote_port : IsU16 e.conn.remote.port
  pub local_ip : IsIpv4Addr e.conn.local.ip
  pub remote_ip : IsIpv4Addr e.conn.remote.ip

-- The segment that carries the flight.
abbrev pub flight_pkt : ℕ → Env → TcpPkt
flight_pkt now e = emitted (flown now e.conn) 24 e.conn.snd_nxt (peek e.conn.tx (flight e.conn))

flight_pos : (e : Env) → Ready e → 0 < flight e.conn
flight_pos e r = ground (arith, r.some_data, r.open_window, r.segment_size)

flight_pkt-IsTcpPkt : (now : ℕ) (e : Env) → Ready e → IsTcpPkt (flight_pkt now e)
flight_pkt-IsTcpPkt now e r = record {
  src = r.local_port;
  dst = r.remote_port;
  seq = ground (arith, r.sending.nxt);
  ack = r.awaited;
  flag = omega arith;
  win = omega arith;
  segment = omega arith;
  syn = inl refl;
  short = ground (arith, length-flight e.conn);
  bytes = r.bytes;
}

pump_lem : (now : ℕ) (e : Env) → Ready e → pump now e ≡ pump_data now e
unfolding pump
pump_lem now e r = ground (arith, r.may_send, r.idle, r.some_data, r.open_window)

-- What the peer finds in a segment of a flight.
flight_queued :
    (now : ℕ) (e : Env)
    → Ready e
    → (i : ℕ) → i < flight e.conn
    → at (flight_pkt now e).payload i ≡ queued e.conn.tx i
flight_queued now e r i h = (peek-queued e.conn.tx (flight e.conn) r.sending.ring).1 i (omega arith)

pump_queues :
    (now : ℕ) (e : Env)
    → Ready e
    → (raw : List ℕ) × (build_tcp_pkt e.check [] (flight_pkt now e) (addr_pair (connection e))
        ≡ ok raw)
      × (pump now e ≡ record e {
        conn = flown now e.conn;
        stack =
            queue (outbound e 24 e.conn.snd_nxt (peek e.conn.tx (flight e.conn)) true raw) e.stack;
      })
pump_queues now e r =
    let (raw, built, sent) =
      emit-queues 24 e.conn.snd_nxt (peek e.conn.tx (flight e.conn)) true
        (record e { conn = flown now e.conn }) (omega (arith, length-flight e.conn)) in
    (raw, built, pump_lem now e r ∙ sent)

-- A connection that takes the next flight of its peer.
pub record Expects (e f : Env) : Type 0 where
  pub state : f.conn.state ≡ established
  pub reading : f.conn.app_closed ≡ false
  pub no_fin : f.conn.recv_fin ≡ false
  pub unsent_fin : f.conn.fin_sent ≡ false
  pub receiving : IsReceiving f.conn
  pub in_step : f.conn.rcv_nxt ≡ e.conn.snd_nxt
  pub not_ahead : seq_less f.conn.snd_nxt e.conn.rcv_nxt ≡ false
  pub room : e.conn.peer_window ≤ window f.conn

-- What is queued for the layer below, what the peer parses, and what its reader finds.
pub record Transferred (now later : ℕ) (e f : Env) : Type 0 where
  pub raw : List ℕ
  pub queues :
      (pump now e).stack
      ≡ queue (outbound e 24 e.conn.snd_nxt (peek e.conn.tx (flight e.conn)) true raw) e.stack
  pub p : TcpPkt
  pub parses : parse_tcp_pkt e.check raw (addr_pair (connection e)) ≡ ok p
  pub count :
      length p.payload ≡ min (min e.conn.tx.size e.conn.peer_mss) (min mss e.conn.peer_window)
  pub some_data : 0 < length p.payload
  pub size : (input p later f).conn.rx.size ≡ f.conn.rx.size + length p.payload
  pub old : (i : ℕ) → i < f.conn.rx.size → queued (input p later f).conn.rx i ≡ queued f.conn.rx i
  pub new :
      (i : ℕ)
      → i < length p.payload
      → queued (input p later f).conn.rx (f.conn.rx.size + i) ≡ queued e.conn.tx i
  pub in_step : (input p later f).conn.rcv_nxt ≡ (pump now e).conn.snd_nxt

flight_pkt-Awaits : (now : ℕ) (e f : Env) → Ready e → Expects e f → Awaits (flight_pkt now e) f.conn
flight_pkt-Awaits now e f r x = record {
  state = x.state;
  reading = x.reading;
  no_fin = x.no_fin;
  unsent_fin = x.unsent_fin;
  receiving = x.receiving;
  flags = refl;
  seq = sym x.in_step;
  ack = x.not_ahead;
  some_data = omega (arith, length-flight e.conn, flight_pos e r);
  fits = omega (arith, length-flight e.conn, x.room);
}

built_once : {x : Result TcpError (List ℕ)} {a b : List ℕ} → x ≡ ok a → x ≡ ok b → a ≡ b
built_once h k = cc

-- When a connection with data in its send queue, nothing in flight and an open window is pumped, it
-- queues one segment, from which the parser reads, between the same addresses, a payload of as many
-- bytes as the queue, both maximum segment sizes and the window allow, at least one, and the peer,
-- if it is established, in step, still read from and has the room that it advertised, appends to
-- its receive queue exactly the first bytes of the send queue, and is in step again.
pub pump-Transferred :
    (now later : ℕ) (e f : Env) → Ready e → Expects e f → Transferred now later e f
pump-Transferred now later e f r x =
    let p : TcpPkt = flight_pkt now e in
    let (raw, built, sent) = pump_queues now e r in
    let (bytes, built', _, parsed) =
      parse-build_tcp e.check p (addr_pair (connection e)) (flight_pkt-IsTcpPkt now e r) r.local_ip
        r.remote_ip in
    let d : Delivered p f.conn (input p later f).conn =
      input-Delivered p later f (flight_pkt-Awaits now e f r x) in
    let count : length p.payload ≡ flight e.conn = length-flight e.conn in
    record {
      raw = raw;
      queues = ap Env.stack sent;
      p = p;
      parses =
          ap (λ b. parse_tcp_pkt e.check b (addr_pair (connection e))) (built_once built built')
          ∙ parsed;
      count = count;
      some_data = omega (arith, count, flight_pos e r);
      size = d.size;
      old = d.old;
      new = λ i h. d.new i h ∙ flight_queued now e r i (omega (arith, count));
      in_step = d.awaited ∙ rw (x.in_step, count) (sym (ap (λ (g : Env). g.conn.snd_nxt) sent));
    }
