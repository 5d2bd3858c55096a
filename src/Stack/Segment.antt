-- ===== src/Stack/Segment.antt =====
-- protocol/tcp/tcp.go: `input`, the arrival of a segment for a connection. Each function here is a
-- part of it, in its order.
pub mod Cases
use halo.Base.{
  ℕ, Bool, true, false, ◌+◌, [], none, some, ◌==◌, ◌&&◌, ◌||◌, not, if◌then◌else◌, length, u32, ok,
  err, Result, ◌>>=◌,
}
use halo.Protocol.Tcp.{TcpPkt, has_syn}
use halo.Stack.Types.{
  established, connection_refused, connection_reset, Conn, time_wait_duration, seq_less, has_fin,
  has_rst, has_ack, tcp_flags_ack, is_syn_sent, is_syn_received, is_time_wait,
}
use halo.Stack.Emit.{Env, connection, reset, fail, emit, ack}
use halo.Stack.Emit.{notified}
use halo.Stack.Pump.{pump}
use halo.Stack.Admission.{offset, window, acceptable, establish}
use halo.Stack.Acks.{update_window, take_ack}
use halo.Stack.Arrived.{receive_data, receive_fin}

-- The connection after the SYN-ACK.
abbrev pub connected : TcpPkt → Conn → Conn
connected p c = record c {
  snd_una = p.ack_num;
  irs = p.seq_num;
  rcv_nxt = u32 (p.seq_num + 1);
  peer_mss = if p.mss == 0 then c.peer_mss else p.mss;
  peer_window = p.window;
  wl_seq = p.seq_num;
  wl_ack = p.ack_num;
  state = established;
  pending = none;
}

unfoldable pub input_syn_sent : TcpPkt → Env → Env
input_syn_sent p e =
    if has_ack p.flags && not (p.ack_num == e.conn.snd_nxt)
    then (if has_rst p.flags
        then e
        else record e { stack = reset e.check (connection e) p e.stack })
    else if has_rst p.flags
    then (if has_ack p.flags then fail (some connection_refused) false e else e)
    else if not (has_syn p.flags && (has_ack p.flags && not (has_fin p.flags)))
    then e
    else notified (ack (record e { conn = connected p e.conn }))

unfoldable pub input_time_wait : TcpPkt → ℕ → Env → Env
input_time_wait p now e =
    if has_rst p.flags
    then e
    else if has_fin p.flags && u32 (p.seq_num + length p.payload + 1) == e.conn.rcv_nxt
    then ack (record e { conn = record e.conn { time_wait_end = now + time_wait_duration } })
    else if not (has_ack p.flags) || not (length p.payload == 0)
    then ack e
    else e

-- The end of `input`.
abbrev pub answer : TcpPkt → ℕ → Env → Env
answer p now e = pump now (if not (length p.payload == 0) || has_fin p.flags then ack e else e)

abbrev pub returned : Result Env Env → Env
returned (ok e) = e
returned (err e) = e

-- What an acceptable segment with an ACK does once the connection is established. The window and
-- the offset are those of the connection as the segment found it.
unfoldable pub input_synchronized : TcpPkt → ℕ → Env → Env
input_synchronized p now e =
    let wnd = window e.conn in
    let right = u32 (e.conn.rcv_nxt + wnd) in
    let d = offset p e.conn in
    returned (
      take_ack p now (record e { conn = update_window p now e.conn }) >>= λ f.
      receive_data p d f >>= λ g. ok (answer p now (receive_fin p wnd right now g)))

unfoldable pub input_segment : TcpPkt → ℕ → Env → Env
input_segment p now e =
    if has_rst p.flags
    then (if p.seq_num == e.conn.rcv_nxt
        then fail (some connection_reset) false e
        else if acceptable p e.conn
        then ack e
        else e)
    else if not (acceptable p e.conn) || has_syn p.flags
    then ack e
    else if not (has_ack p.flags)
    then e
    else if seq_less e.conn.snd_nxt p.ack_num
    then ack e
    else if is_syn_received e.conn.state
    then (if not (p.ack_num == e.conn.snd_nxt) || not (p.seq_num == e.conn.rcv_nxt)
        then e
        else input_synchronized p now (establish p e))
    else input_synchronized p now e

-- A SYN, or a SYN with an ACK, and no RST, that opened the connection once.
abbrev pub repeated_syn : TcpPkt → Conn → Bool
repeated_syn p c =
    has_syn p.flags && (not (has_ack p.flags) && (not (has_rst p.flags) && p.seq_num == c.irs))

abbrev pub repeated_syn_ack : TcpPkt → Conn → Bool
repeated_syn_ack p c =
    has_syn p.flags
    && (has_ack p.flags
        && (not (has_rst p.flags) && (p.seq_num == c.irs && p.ack_num == u32 (c.iss + 1))))

unfoldable pub input : TcpPkt → ℕ → Env → Env
input p now e =
    if is_syn_sent e.conn.state
    then input_syn_sent p e
    else if is_syn_received e.conn.state && repeated_syn p e.conn
    then emit (2 + tcp_flags_ack) e.conn.iss [] true e
    else if is_time_wait e.conn.state
    then input_time_wait p now e
    else if repeated_syn_ack p e.conn
    then ack e
    else input_segment p now e
