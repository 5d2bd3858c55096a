-- ===== src/Stack/Arrival.antt =====
-- protocol/tcp/stack.go: `Input`, the way of a packet to a connection or a listener. The initial
-- sequence number is an argument, and the time of the call.
use halo.Base.{
  ℕ, Bool, true, false, zero, suc, ◌+◌, [], Option, none, some, ◌==◌, ◌||◌, not, if◌then◌else◌, leb,
  length, u32, ok, err, Parsed, lookup, ℤ, pos, negsuc,
}
use halo.Protocol.Tcp.{TcpPkt, TcpError, parse_tcp_pkt, has_syn}
use halo.Stack.Types.{
  syn_received, Addr, ConnKey, Packet, Conn, Listener, Stack, max_connections, listen_backlog,
  has_fin, has_rst, has_ack, tcp_flags_ack, addr_key, conn_key,
}
use halo.Stack.Emit.{inc, reset, change_listener, emit}
use halo.Stack.Segment.{input}
use halo.Stack.Table.{
  StackError, stack_closed, invalid_packet_address, invalid_packet_port, invalid_segment, unicast,
  on_conn, new_conn, register,
}

-- The connection that a SYN opens, before the SYN-ACK.
abbrev pub accepting : ConnKey → ℕ → TcpPkt → ℕ → ℕ → Conn
accepting key l p iss now = record (new_conn key.local key.remote iss now) {
  listener = some l;
  state = syn_received;
  irs = p.seq_num;
  rcv_nxt = u32 (p.seq_num + 1);
  peer_mss = if p.mss == 0 then 536 else p.mss;
  peer_window = p.window;
  wl_seq = p.seq_num;
  wl_ack = p.ack_num;
  snd_nxt = u32 (iss + 1);
}

abbrev pub count_port : Addr → Stack → Stack
count_port a s = record s { ports = λ b. if addr_key.beq a b then inc (s.ports b) else s.ports b }

abbrev pub one_more : Listener → Listener
one_more l = record l { incomplete = inc l.incomplete }

abbrev pub open_passive : Bool → ConnKey → ℕ → TcpPkt → ℕ → ℕ → Stack → Stack
open_passive check key l p iss now s =
    on_conn check s.next_cell (λ e. emit (2 + tcp_flags_ack) iss [] true e)
      (register key (accepting key l p iss now)
        (change_listener l one_more (count_port key.local s)))

-- `n <= x`
abbrev pub at_least : ℤ → ℕ → Bool
at_least (pos x) n = leb n x
at_least (negsuc x) n = false

abbrev pub plus : ℤ → ℕ → ℤ
plus x zero = x
plus x (suc n) = inc (plus x n)

abbrev pub backlog_full : Option Listener → Bool
backlog_full none = false
backlog_full (some l) = at_least (plus l.incomplete (length l.pending)) listen_backlog

-- A segment for a listener.
abbrev pub input_listening : Bool → ConnKey → ℕ → TcpPkt → ℕ → ℕ → Stack → Stack
input_listening check key l p iss now s =
    if not (has_syn p.flags) || has_fin p.flags
    then s
    else if leb max_connections (length s.conns) || backlog_full (s.listener_cells l)
    then s
    else open_passive check key l p iss now s

-- A segment for no connection.
abbrev pub input_unknown : Bool → ConnKey → Option ℕ → TcpPkt → ℕ → ℕ → Stack → Stack
input_unknown check key none p iss now s = reset check key p s
input_unknown check key (some l) p iss now s =
    if has_ack p.flags then reset check key p s else input_listening check key l p iss now s

abbrev pub deliver : Bool → ConnKey → Option ℕ → TcpPkt → ℕ → ℕ → Stack → Stack
deliver check key (some id) p iss now s = on_conn check id (input p now) s
deliver check key none p iss now s =
    if has_rst p.flags
    then s
    else input_unknown check key (lookup key.local s.listeners) p iss now s

abbrev pub key_of : Packet → TcpPkt → ConnKey
key_of packet p = record {
  local = record { ip = packet.addr.dst_addr; port = p.dst_port };
  remote = record { ip = packet.addr.src_addr; port = p.src_port };
}

abbrev pub input_parsed :
    Bool → Packet → ℕ → ℕ → Stack → Parsed TcpError TcpPkt → Option StackError × Stack
input_parsed check packet iss now s (err (p, x)) = (some (invalid_segment x), s)
input_parsed check packet iss now s (ok p) =
    let key = key_of packet p in
    if p.src_port == 0 || p.dst_port == 0
    then (some invalid_packet_port, s)
    else if s.closed
    then (some stack_closed, s)
    else (none, deliver check key (lookup key s.conns) p iss now s)

-- `Input`
unfoldable pub stack_input : Bool → Packet → ℕ → ℕ → Stack → Option StackError × Stack
stack_input check packet iss now s =
    if not (unicast packet.addr.src_addr) || not (unicast packet.addr.dst_addr)
    then (some invalid_packet_address, s)
    else input_parsed check packet iss now s (parse_tcp_pkt check packet.raw packet.addr)
