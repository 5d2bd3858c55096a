-- ===== src/Stack/Table.antt =====
-- protocol/tcp/stack.go and tcp.go: the connections of a stack, and Dial. The initial sequence
-- number, an HMAC of the end points and the time, is an argument, and the time of the call.
use halo.Base.{
  ◌%◌, ℕ, Bool, true, false, suc, ◌+◌, [], Option, none, some, ◌==◌, ◌&&◌, ◌||◌, not, if◌then◌else◌,
  ltb, leb, length, replicate, u32, ok, err, Result, insert,
}
use halo.Protocol.Utils.{Ipv4Addr}
use halo.Protocol.Tcp.{TcpError}
use halo.Stack.Buffer.{ByteBuffer}
use halo.Stack.Types.{
  is_syn_sent, is_closed, err_closed, ConnError, closed, syn_sent, Addr, ConnKey, Conn, Stack,
  send_buffer_size, receive_buffer_size, max_connections, second, handshake_timeout, ip_addr_eq,
  addr_key, conn_key,
}
use halo.Stack.Emit.{Env, emit}
use halo.Stack.Ports.{take_port}
use halo.Base.{pos}

pub data StackError : Type 0 where
  invalid_remote invalid_local stack_closed connection_limit listener_limit no_port : StackError
  invalid_packet_address invalid_packet_port : StackError
  invalid_segment : TcpError → StackError

abbrev pub broadcast : Ipv4Addr
broadcast = record { a0 = 255; a1 = 255; a2 = 255; a3 = 255 }

abbrev pub unicast : Ipv4Addr → Bool
unicast ip = not (ip.a0 == 0) && (ltb ip.a0 224 && not (ip_addr_eq ip broadcast))

abbrev pub put_conn : ℕ → Conn → Stack → Stack
put_conn id c s = record s { conn_cells = λ n. if n == id then some c else s.conn_cells n }

-- A method of the connection in a cell.
abbrev pub run_on : Bool → ℕ → (Env → Env) → Option Conn → Stack → Stack
run_on check id f none s = s
run_on check id f (some c) s =
    let e = f (record { check = check; id = id; conn = c; stack = s }) in put_conn id e.conn e.stack

abbrev pub on_conn : Bool → ℕ → (Env → Env) → Stack → Stack
on_conn check id f s = run_on check id f (s.conn_cells id) s

abbrev pub ring_of : ℕ → ByteBuffer
ring_of n = record { bytes = replicate n 0; head = 0; size = 0 }

-- `newConn`: the connection, whose cell is the next one.
abbrev pub new_conn : Addr → Addr → ℕ → ℕ → Conn
new_conn local remote iss now = record {
  local = local;
  remote = remote;
  event = 0;
  rd = 0;
  wd = 0;
  error = none;
  app_closed = false;
  write_closed = false;
  listener = none;
  state = closed;
  iss = iss;
  irs = 0;
  snd_una = iss;
  snd_nxt = iss;
  rcv_nxt = 0;
  wl_seq = 0;
  wl_ack = 0;
  peer_window = 0;
  peer_mss = 536;
  tx = ring_of send_buffer_size;
  rx = ring_of receive_buffer_size;
  inflight = 0;
  fin_sent = false;
  recv_fin = false;
  fin_seq = 0;
  handshake_end = now + handshake_timeout;
  close_end = 0;
  time_wait_end = 0;
  progress = 0;
  retransmit_at = 0;
  sent_at = 0;
  probe_at = 0;
  rto = second;
  srtt = 0;
  rttvar = 0;
  probe_interval = 0;
  rtt_valid = false;
  pending = none;
  pending_at = 0;
}

abbrev pub register : ConnKey → Conn → Stack → Stack
register key c s = record (put_conn s.next_cell c s) {
  conns = insert key s.next_cell s.conns;
  next_cell = suc s.next_cell;
}

-- The connection that Dial makes, before its SYN.
abbrev pub dialing : Addr → Addr → ℕ → ℕ → Conn
dialing local remote iss now = record (new_conn local remote iss now) {
  state = syn_sent;
  snd_nxt = u32 (iss + 1);
}

abbrev pub dial_from :
    Bool → Addr → Ipv4Addr → ℕ → ℕ → Option ℕ × Stack → Result StackError ℕ × Stack
dial_from check remote ip iss now (none, s) = (err no_port, s)
dial_from check remote ip iss now (some port, s) =
    let local : Addr = record { ip = ip; port = port } in
    let id = s.next_cell in
    (
      ok id,
      on_conn check id (λ e. emit 2 iss [] true e)
          (register (record { local = local; remote = remote }) (dialing local remote iss now) s),
    )

-- `Dial` up to its wait for the handshake: the number of the connection.
unfoldable pub dial : Bool → Addr → Addr → ℕ → ℕ → Stack → Result StackError ℕ × Stack
dial check remote local iss now s =
    if not (unicast remote.ip) || remote.port == 0
    then (err invalid_remote, s)
    else if not (unicast local.ip)
    then (err invalid_local, s)
    else if s.closed
    then (err stack_closed, s)
    else if leb max_connections (length s.conns)
    then (err connection_limit, s)
    else dial_from check remote local.ip iss now (take_port local s)

pub data Dialed : Type 0 where
  dial_waits dial_connected : Dialed
  dial_failed : ConnError → Dialed

-- One round of the wait of `Dial`, and what it returns at the end.
unfoldable pub dial_round : Conn → Dialed
dial_round c = if is_syn_sent c.state then dial_waits else result c.error
  where
    result : Option ConnError → Dialed
    result (some x) = dial_failed x
    result none = if is_closed c.state then dial_failed err_closed else dial_connected

-- `NewStack`; the argument is the number that the first two bytes of the secret make.
unfoldable pub new_stack : ℕ → Stack
new_stack start = record {
  conns = [];
  listeners = [];
  ports = λ a. pos 0;
  next_port = 49152 + start % 16384;
  tx = [];
  closed = false;
  conn_cells = λ n. none;
  listener_cells = λ n. none;
  next_cell = 0;
}
