-- ===== src/Stack/Types.antt =====
-- protocol/tcp: the types of tcp.go, stack.go, conn.go and listener.go, and their constants. A time
-- is a number of nanoseconds, zero for the zero value; a duration likewise. An object that several
-- others point to is a cell of the stack, known by its number. A channel that wakes waiters is a
-- counter, and a step of it is a fresh channel.
use halo.Base.{
  ℕ, Bool, true, false, ◌+◌, ◌-◌, ◌*◌, ◌/◌, ◌%◌, ◌^◌, ◌≡◌, ◌↔◌, arith, List, [], Option, ◌==◌, ◌&&◌,
  leb, u32, ℤ, Eq,
}
use halo.Protocol.Utils.{Ipv4Addr}
use halo.Protocol.Ipv4.{Ipv4AddrPair}
use halo.Protocol.Tcp.{TcpError}
use halo.Stack.Buffer.{ByteBuffer}

-- `state`
pub data TcpState : Type 0 where
  closed syn_sent syn_received established fin_wait1 fin_wait2 : TcpState
  close_wait closing last_ack time_wait : TcpState

pub record Addr : Type 0 where
  pub ip : Ipv4Addr
  pub port : ℕ

pub record ConnKey : Type 0 where
  pub local : Addr
  pub remote : Addr

-- `Packet`
pub record Packet : Type 0 where
  pub addr : Ipv4AddrPair
  pub raw : List ℕ

-- `outbound`; `conn` is the number of the connection, if there is one.
pub record Outbound : Type 0 where
  pub packet : Packet
  pub conn : Option ℕ
  pub end : ℕ
  pub track : Bool

-- What `err` holds: net.ErrClosed, ErrTimeout, and the errors that are made in place.
pub data ConnError : Type 0 where
  err_closed err_timeout connection_refused connection_reset data_after_close : ConnError
  build_failed : TcpError → ConnError

-- The fields of Conn but for its mutexes.
pub record Conn : Type 0 where
  pub local : Addr
  pub remote : Addr
  pub event : ℕ
  pub rd : ℕ
  pub wd : ℕ
  pub error : Option ConnError
  pub app_closed : Bool
  pub write_closed : Bool
  pub listener : Option ℕ
  pub state : TcpState
  pub iss : ℕ
  pub irs : ℕ
  pub snd_una : ℕ
  pub snd_nxt : ℕ
  pub rcv_nxt : ℕ
  pub wl_seq : ℕ
  pub wl_ack : ℕ
  pub peer_window : ℕ
  pub peer_mss : ℕ
  pub tx : ByteBuffer
  pub rx : ByteBuffer
  pub inflight : ℕ
  pub fin_sent : Bool
  pub recv_fin : Bool
  pub fin_seq : ℕ
  pub handshake_end : ℕ
  pub close_end : ℕ
  pub time_wait_end : ℕ
  pub progress : ℕ
  pub retransmit_at : ℕ
  pub sent_at : ℕ
  pub probe_at : ℕ
  pub rto : ℕ
  pub srtt : ℕ
  pub rttvar : ℕ
  pub probe_interval : ℕ
  pub rtt_valid : Bool
  pub pending : Option Outbound
  pub pending_at : ℕ

pub record Listener : Type 0 where
  pub local : Addr
  pub incomplete : ℤ
  pub pending : List ℕ
  pub event : ℕ
  pub closed : Bool

-- The fields of Stack that its lock guards, and the connections and listeners that exist. A port
-- without an entry in the map counts zero.
pub record Stack : Type 0 where
  pub conns : List (ConnKey × ℕ)
  pub listeners : List (Addr × ℕ)
  pub ports : Addr → ℤ
  pub next_port : ℕ
  pub tx : List Outbound
  pub closed : Bool
  pub conn_cells : ℕ → Option Conn
  pub listener_cells : ℕ → Option Listener
  pub next_cell : ℕ

-- `byteBuffer{}`
abbrev pub no_buffer : ByteBuffer
no_buffer = record { bytes = []; head = 0; size = 0 }

abbrev pub mss : ℕ
mss = 1200

abbrev pub send_buffer_size : ℕ
send_buffer_size = 16384

abbrev pub receive_buffer_size : ℕ
receive_buffer_size = 16384

abbrev pub max_connections : ℕ
max_connections = 1024

abbrev pub listen_backlog : ℕ
listen_backlog = 128

abbrev pub millisecond : ℕ
millisecond = 1000000

abbrev pub second : ℕ
second = 1000000000

abbrev pub handshake_timeout : ℕ
handshake_timeout = 5 * second

abbrev pub user_timeout : ℕ
user_timeout = 120 * second

abbrev pub close_timeout : ℕ
close_timeout = 30 * second

abbrev pub time_wait_duration : ℕ
time_wait_duration = 240 * second

-- `a - b` on uint32
abbrev pub sub32 : ℕ → ℕ → ℕ
sub32 a b = u32 (a + 2 ^ 32 - b)

-- `int32(x) < 0`
abbrev pub negative32 : ℕ → Bool
negative32 x = leb (2 ^ 31) x

-- `seqLess`
abbrev pub seq_less : ℕ → ℕ → Bool
seq_less a b = negative32 (sub32 a b)

-- `flags & TCP_FLAGS_... != 0`
abbrev pub has_fin : ℕ → Bool
has_fin flags = flags % 2 == 1

abbrev pub has_rst : ℕ → Bool
has_rst flags = flags / 4 % 2 == 1

abbrev pub has_ack : ℕ → Bool
has_ack flags = flags / 16 % 2 == 1

abbrev pub tcp_flags_fin : ℕ
tcp_flags_fin = 0x01

abbrev pub tcp_flags_rst : ℕ
tcp_flags_rst = 0x04

abbrev pub tcp_flags_psh : ℕ
tcp_flags_psh = 0x08

abbrev pub tcp_flags_ack : ℕ
tcp_flags_ack = 0x10

-- Comparisons of `c.state` with a constant.
abbrev pub is_closed : TcpState → Bool
is_closed closed = true
is_closed _ = false

abbrev pub is_syn_sent : TcpState → Bool
is_syn_sent syn_sent = true
is_syn_sent _ = false

abbrev pub is_syn_received : TcpState → Bool
is_syn_received syn_received = true
is_syn_received _ = false

abbrev pub is_close_wait : TcpState → Bool
is_close_wait close_wait = true
is_close_wait _ = false

abbrev pub is_time_wait : TcpState → Bool
is_time_wait time_wait = true
is_time_wait _ = false

-- `state == established || state == closeWait`
abbrev pub can_send : TcpState → Bool
can_send established = true
can_send close_wait = true
can_send _ = false

-- `==` on the key types
abbrev pub ip_addr_eq : Ipv4Addr → Ipv4Addr → Bool
ip_addr_eq a b = a.a0 == b.a0 && (a.a1 == b.a1 && (a.a2 == b.a2 && a.a3 == b.a3))

abbrev pub addr_eq : Addr → Addr → Bool
addr_eq a b = ip_addr_eq a.ip b.ip && a.port == b.port

abbrev pub conn_key_eq : ConnKey → ConnKey → Bool
conn_key_eq a b = addr_eq a.local b.local && addr_eq a.remote b.remote

pub addr_eq_iff : (a b : Addr) → (addr_eq a b ≡ true) ↔ (a ≡ b)
addr_eq_iff a b = ground arith

pub conn_key_eq_iff : (a b : ConnKey) → (conn_key_eq a b ≡ true) ↔ (a ≡ b)
conn_key_eq_iff a b = ground arith

instance abbrev pub addr_key : Eq Addr
addr_key = record { beq = addr_eq; beq_iff = addr_eq_iff }

instance abbrev pub conn_key : Eq ConnKey
conn_key = record { beq = conn_key_eq; beq_iff = conn_key_eq_iff }
