-- ===== src/Stack/Pump.antt =====
-- protocol/tcp/tcp.go: `pump`, which sends what the peer's window and the last flight allow.
pub mod Cases
use Prim.Native.Nat.{min}
use halo.Base.{ℕ, true, ◌+◌, [], ◌==◌, ◌&&◌, ◌||◌, not, if◌then◌else◌, u32}
use halo.Stack.Buffer.{peek}
use halo.Stack.Types.{
  fin_wait1, last_ack, Conn, mss, tcp_flags_fin, tcp_flags_psh, tcp_flags_ack, can_send,
  is_close_wait,
}
use halo.Stack.Emit.{Env, emit}

-- A closed window is probed later, if there is something to send.
abbrev pub plan_probe : ℕ → Conn → Conn
plan_probe now c =
    if (not (c.tx.size == 0) || c.write_closed) && c.probe_at == 0
    then record c { probe_interval = c.rto; probe_at = now + c.rto }
    else c

-- `min(c.tx.size, c.peerMss, mss, int(c.peerWindow))`
abbrev pub flight : Conn → ℕ
flight c = min (min c.tx.size c.peer_mss) (min mss c.peer_window)

-- The connection once a flight of data has left.
abbrev pub flown : ℕ → Conn → Conn
flown now c = record c {
  inflight = flight c;
  snd_nxt = u32 (c.snd_nxt + flight c);
  sent_at = now;
  rtt_valid = true;
  retransmit_at = now + c.rto;
}

-- The connection once its FIN has left.
abbrev pub finished : ℕ → Conn → Conn
finished now c = record c {
  fin_sent = true;
  fin_seq = c.snd_nxt;
  snd_nxt = u32 (c.snd_nxt + 1);
  state = if is_close_wait c.state then last_ack else fin_wait1;
  retransmit_at = now + c.rto;
}

abbrev pub pump_data : ℕ → Env → Env
pump_data now e =
    emit (tcp_flags_ack + tcp_flags_psh) e.conn.snd_nxt (peek e.conn.tx (flight e.conn)) true
      (record e { conn = flown now e.conn })

abbrev pub pump_fin : ℕ → Env → Env
pump_fin now e =
    emit (tcp_flags_fin + tcp_flags_ack) e.conn.snd_nxt [] true
      (record e { conn = finished now e.conn })

unfoldable pub pump : ℕ → Env → Env
pump now e =
    if not (can_send e.conn.state)
    then e
    else if not (e.conn.inflight == 0)
    then e
    else if e.conn.peer_window == 0
    then record e { conn = plan_probe now e.conn }
    else if not (e.conn.tx.size == 0)
    then pump_data now e
    else if e.conn.write_closed && not e.conn.fin_sent
    then pump_fin now e
    else e
