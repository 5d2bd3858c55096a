-- ===== src/Stack/Tick.antt =====
-- protocol/tcp/tcp.go: `tick`, the timers of a connection.
pub mod Cases
use Prim.Native.Nat.{min}
use halo.Base.{
  ℕ, Bool, true, false, ◌+◌, ◌-◌, ◌*◌, [], ◌∷◌, Option, none, some, ◌==◌, ◌&&◌, ◌||◌, not,
  if◌then◌else◌, leb, u32,
}
use halo.Stack.Buffer.{peek}
use halo.Stack.Types.{
  Conn, Outbound, err_timeout, millisecond, second, user_timeout, sub32, seq_less, tcp_flags_fin,
  tcp_flags_psh, tcp_flags_ack, is_closed, is_syn_sent, is_syn_received, is_time_wait,
}
use halo.Stack.Emit.{Env, queue, fail, emit}
use halo.Stack.Pump.{pump}

-- `!t.IsZero() && !now.Before(t)`
abbrev pub reached : ℕ → ℕ → Bool
reached now t = not (t == 0) && leb t now

abbrev pub opening : Conn → Bool
opening c = is_syn_sent c.state || is_syn_received c.state

-- The deadlines after which the connection is given up.
abbrev pub timed_out : ℕ → Conn → Bool
timed_out now c =
    if opening c
    then leb c.handshake_end now
    else reached now c.close_end
      || (not (c.tx.size == 0) && (not (c.progress == 0) && leb user_timeout (now - c.progress)))

-- A segment that the layer below did not take is queued again, if it still matters.
abbrev pub requeue : ℕ → Outbound → Env → Env
requeue now out e = record e {
  conn = record e.conn { pending = none; pending_at = now + 100 * millisecond };
  stack = if seq_less e.conn.snd_una out.end then queue out e.stack else e.stack;
}

abbrev pub plan_first_probe : ℕ → Conn → Conn
plan_first_probe now c =
    if c.probe_at == 0 then record c { probe_interval = c.rto; probe_at = now + c.rto } else c

-- One byte is in flight while the window is probed.
abbrev pub probe_flight : Conn → Conn
probe_flight c =
    if c.inflight == 0 then record c { inflight = 1; snd_nxt = u32 (c.snd_nxt + 1) } else c

unfoldable pub send_probe : Env → Env
send_probe e =
    if not (e.conn.tx.size == 0)
    then emit tcp_flags_ack e.conn.snd_una (peek e.conn.tx 1) true
        (record e { conn = probe_flight e.conn })
    else emit tcp_flags_ack (sub32 e.conn.snd_nxt 1) (0 ∷ []) false e

-- `c.probeInterval = min(c.probeInterval*2, 60*time.Second); c.probeAt = ...`
abbrev pub back_off_probe : ℕ → Env → Env
back_off_probe now e =
    let interval = min (e.conn.probe_interval * 2) (60 * second) in
    record e { conn = record e.conn { probe_interval = interval; probe_at = now + interval } }

unfoldable pub tick_probe : ℕ → Env → Env
tick_probe now e =
    let c = plan_first_probe now e.conn in
    if leb c.probe_at now
    then back_off_probe now (send_probe (record e { conn = record c { rtt_valid = false } }))
    else record e { conn = c }

-- The connection when the retransmission timer fires.
abbrev pub back_off : ℕ → Conn → Conn
back_off now c =
    let rto = min (c.rto * 2) (60 * second) in
    record c { rtt_valid = false; rto = rto; retransmit_at = now + rto }

unfoldable pub send_again : Env → Env
send_again e =
    if not (e.conn.inflight == 0)
    then emit (tcp_flags_ack + tcp_flags_psh) e.conn.snd_una (peek e.conn.tx e.conn.inflight) true e
    else if e.conn.fin_sent
    then emit (tcp_flags_ack + tcp_flags_fin) e.conn.fin_seq [] true e
    else e

unfoldable pub retransmit : ℕ → Env → Env
retransmit now e =
    if not (e.conn.snd_una == e.conn.snd_nxt) && leb e.conn.retransmit_at now
    then send_again (record e { conn = back_off now e.conn })
    else e

abbrev pub probes : Conn → Bool
probes c = c.peer_window == 0 && (not (c.tx.size == 0) || (c.write_closed && not c.fin_sent))

-- What follows the deadlines, once no segment waits for the layer below.
abbrev pub tick_timers : ℕ → Env → Env
tick_timers now e =
    if opening e.conn
    then e
    else if probes e.conn
    then tick_probe now e
    else pump now (retransmit now e)

abbrev pub tick_pending : ℕ → Option Outbound → Env → Env
tick_pending now none e = tick_timers now e
tick_pending now (some out) e =
    if leb e.conn.pending_at now then requeue now out e else tick_timers now e

unfoldable pub tick : ℕ → Env → Env
tick now e =
    if is_closed e.conn.state
    then e
    else if is_time_wait e.conn.state
    then (if leb e.conn.time_wait_end now then fail none false e else e)
    else if timed_out now e.conn
    then fail (some err_timeout) true e
    else tick_pending now e.conn.pending e
