-- ===== src/Stack/Acks.antt =====
-- protocol/tcp/tcp.go: what `input` does with the window and the acknowledgment of a segment. `err` is
-- an early return.
use Prim.Native.Nat.{min, max}
use halo.Base.{
  ℕ, Bool, false, ◌+◌, ◌-◌, ◌*◌, ◌/◌, none, ◌==◌, ◌&&◌, ◌||◌, not, if◌then◌else◌, ltb, u32, ok, err,
  Result,
}
use halo.Protocol.Tcp.{TcpPkt}
use halo.Stack.Buffer.{discard}
use halo.Stack.Types.{
  TcpState, fin_wait1, fin_wait2, closing, last_ack, Conn, millisecond, second, sub32, seq_less,
}
use halo.Stack.Emit.{Env, notify, fail, enter_time_wait}

-- The peer's window, from the newest segment.
abbrev pub newer_window : TcpPkt → Conn → Bool
newer_window p c =
    not (seq_less p.ack_num c.snd_una)
    && (seq_less c.wl_seq p.seq_num || (c.wl_seq == p.seq_num && not (seq_less p.ack_num c.wl_ack)))

abbrev pub update_window : TcpPkt → ℕ → Conn → Conn
update_window p now c =
    if newer_window p c
    then record c {
      peer_window = p.window;
      wl_seq = p.seq_num;
      wl_ack = p.ack_num;
      probe_at = if ltb 0 p.window then 0 else c.probe_at;
      retransmit_at =
          if ltb 0 p.window && (c.peer_window == 0 && ltb 0 c.inflight)
          then now
          else c.retransmit_at;
    }
    else c

-- The round trip time, in nanoseconds.
unfoldable pub measure_rtt : ℕ → Conn → ℕ × ℕ
measure_rtt now c =
    let rtt = max (now - c.sent_at) 1000 in
    if c.srtt == 0
    then (rtt, rtt / 2)
    else let delta = if ltb c.srtt rtt then rtt - c.srtt else c.srtt - rtt in
      ((7 * c.srtt + rtt) / 8, (3 * c.rttvar + delta) / 4)

unfoldable pub update_rtt : ℕ → Conn → Conn
update_rtt now c =
    let (srtt, rttvar) = measure_rtt now c in
    if c.rtt_valid
    then record c {
      srtt = srtt;
      rttvar = rttvar;
      rto = min (max (srtt + max (20 * millisecond) (4 * rttvar)) second) (60 * second);
      rtt_valid = false;
    }
    else c

-- `n` sequence numbers were acknowledged: what is in flight leaves the send buffer.
unfoldable pub consume : ℕ → ℕ → Conn → Conn
consume n now c =
    if ltb 0 c.inflight
    then update_rtt now (record c {
      tx = discard c.tx (min n c.inflight);
      inflight = c.inflight - min n c.inflight;
    })
    else c

unfoldable pub acked : TcpPkt → ℕ → Conn → Conn
acked p now c =
    let d = consume (sub32 p.ack_num c.snd_una) now c in
    notify (record d {
      snd_una = p.ack_num;
      progress = now;
      retransmit_at = now + d.rto;
      pending = none;
    })

-- The switch behind the acknowledgment of our FIN.
abbrev pub fin_acked : ℕ → TcpState → Env → Result Env Env
fin_acked now fin_wait1 e = ok (record e { conn = record e.conn { state = fin_wait2 } })
fin_acked now closing e = ok (enter_time_wait now e)
fin_acked now last_ack e = err (fail none false e)
fin_acked now _ e = ok e

unfoldable pub take_ack : TcpPkt → ℕ → Env → Result Env Env
take_ack p now e =
    let f = record e { conn = acked p now e.conn } in
    if not (seq_less e.conn.snd_una p.ack_num)
    then ok e
    else if f.conn.fin_sent && p.ack_num == u32 (f.conn.fin_seq + 1)
    then fin_acked now f.conn.state f
    else ok f
