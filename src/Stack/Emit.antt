-- ===== src/Stack/Emit.antt =====
-- protocol/tcp/tcp.go: sending a segment of a connection, and its end. CheckSumEnable is the
-- argument `check`.
pub mod Sent
use halo.Base.{
  ℕ, Bool, true, false, zero, suc, ◌+◌, ◌-◌, ◌*◌, List, [], ◌∷◌, ◌++◌, Option, none, some, ◌==◌,
  ◌&&◌, not, if◌then◌else◌, leb, length, u16, u32, ok, err, Result, erase, ℤ, pos, negsuc,
}
use halo.Protocol.Ipv4.{Ipv4AddrPair}
use halo.Protocol.Tcp.{TcpPkt, TcpError, zero_tcp_pkt, build_tcp_pkt, has_syn}
use halo.Stack.Types.{
  TcpState, closed, time_wait, Addr, ConnKey, Outbound, ConnError, build_failed, Conn, Listener,
  Stack, no_buffer, mss, max_connections, time_wait_duration, has_fin, has_ack, tcp_flags_rst,
  tcp_flags_ack, is_closed, is_syn_sent, is_syn_received, is_time_wait, addr_eq, conn_key,
}

-- A connection in its stack, while one of its methods runs: `id` is the number of its cell.
pub record Env : Type 0 where
  pub check : Bool
  pub id : ℕ
  pub conn : Conn
  pub stack : Stack

-- `x++` and `x--` on an int
abbrev pub inc : ℤ → ℤ
inc (pos n) = pos (suc n)
inc (negsuc zero) = pos zero
inc (negsuc (suc n)) = negsuc n

abbrev pub dec : ℤ → ℤ
dec (pos zero) = negsuc zero
dec (pos (suc n)) = pos n
dec (negsuc n) = negsuc (suc n)

abbrev pub connection : Env → ConnKey
connection e = record { local = e.conn.local; remote = e.conn.remote }

-- `queue`; the wake channel only schedules the sender.
unfoldable pub queue : Outbound → Stack → Stack
queue out s =
    if leb (max_connections * 4 + 16) (length s.tx) then s else record s { tx = s.tx ++ (out ∷ []) }

-- `release`: the count of the port goes down, and a count of zero is no entry.
abbrev pub release : Addr → Stack → Stack
release a s = record s { ports = λ b. if addr_eq a b then dec (s.ports b) else s.ports b }

abbrev pub one_if : Bool → ℕ
one_if true = 1
one_if false = 0

-- The RST that answers `p`.
abbrev pub reset_packet : ConnKey → TcpPkt → TcpPkt
reset_packet key p =
    let answer = record zero_tcp_pkt { src_port = key.local.port; dst_port = key.remote.port } in
    if has_ack p.flags
    then record answer { flags = tcp_flags_rst; seq_num = p.ack_num }
    else record answer {
      flags = tcp_flags_rst + tcp_flags_ack;
      ack_num =
          u32 (p.seq_num + length p.payload + one_if (has_syn p.flags) + one_if (has_fin p.flags));
    }

abbrev pub addr_pair : ConnKey → Ipv4AddrPair
addr_pair key = record { src_addr = key.local.ip; dst_addr = key.remote.ip }

abbrev pub queue_reset : ConnKey → Stack → Result TcpError (List ℕ) → Stack
queue_reset key s (err x) = s
queue_reset key s (ok raw) =
    queue
      (record {
        packet = record { addr = addr_pair key; raw = raw };
        conn = none;
        end = 0;
        track = false;
      })
      s

-- `reset`
unfoldable pub reset : Bool → ConnKey → TcpPkt → Stack → Stack
reset check key p s =
    queue_reset key s (build_tcp_pkt check [] (reset_packet key p) (addr_pair key))

-- The first occurrence of the connection leaves the pending list.
abbrev pub drop_pending : ℕ → List ℕ → List ℕ
drop_pending id [] = []
drop_pending id (c ∷ cs) = if c == id then cs else c ∷ drop_pending id cs

-- What `fail` does to the listener of a connection in state `state`.
abbrev pub forget : ℕ → TcpState → Listener → Listener
forget id state l =
    if is_syn_received state
    then record l { incomplete = dec l.incomplete }
    else record l { pending = drop_pending id l.pending }

abbrev pub in_cell {ℓ} : {A : Type ℓ} → (A → A) → Option A → Option A
in_cell f none = none
in_cell f (some a) = some (f a)

abbrev pub change_listener : ℕ → (Listener → Listener) → Stack → Stack
change_listener l f s = record s {
  listener_cells = λ n. if n == l then in_cell f (s.listener_cells n) else s.listener_cells n;
}

abbrev pub leave_listener : ℕ → TcpState → Option ℕ → Stack → Stack
leave_listener id state none s = s
leave_listener id state (some l) s = change_listener l (forget id state) s

abbrev pub notify : Conn → Conn
notify c = record c { event = suc c.event }

abbrev pub notified : Env → Env
notified e = record e { conn = notify e.conn }

-- The connection after it has failed.
abbrev pub failed : Option ConnError → Conn → Conn
failed x c = notify (record c { state = closed; error = x; pending = none; tx = no_buffer })

-- `delete(c.stack.conns, ...)` and `release`
abbrev pub unregister : Env → Stack → Stack
unregister e s = release e.conn.local (record s { conns = erase (connection e) s.conns })

abbrev pub sends_reset : Bool → Env → Bool
sends_reset wanted e =
    wanted
    && (not (is_syn_sent e.conn.state) && (not (is_time_wait e.conn.state) && not e.stack.closed))

abbrev pub reset_first : Bool → Env → Stack
reset_first wanted e =
    if sends_reset wanted e
    then reset e.check (connection e)
        (record zero_tcp_pkt { flags = tcp_flags_ack; ack_num = e.conn.snd_nxt }) e.stack
    else e.stack

unfoldable pub fail : Option ConnError → Bool → Env → Env
fail x wanted e = if is_closed e.conn.state then e else record e {
  conn = failed x e.conn;
  stack = unregister e (leave_listener e.id e.conn.state e.conn.listener (reset_first wanted e));
}

-- `enterTimeWait`
abbrev pub enter_time_wait : ℕ → Env → Env
enter_time_wait now e = record e {
  conn = notify (record e.conn {
    state = time_wait;
    time_wait_end = now + time_wait_duration;
    pending = none;
    tx = no_buffer;
  });
}

-- The segment that `emit` builds.
abbrev pub emitted : Conn → ℕ → ℕ → List ℕ → TcpPkt
emitted c flags seq bytes = record {
  payload = bytes;
  src_port = c.local.port;
  dst_port = c.remote.port;
  seq_num = seq;
  ack_num = c.rcv_nxt;
  flags = flags;
  window = u16 (length c.rx.bytes - c.rx.size);
  mss = if has_syn flags then mss else 0;
}

abbrev pub queue_built : Env → ℕ → Bool → Result TcpError (List ℕ) → Env
queue_built e end track (err x) = fail (some (build_failed x)) false e
queue_built e end track (ok raw) = record e {
  stack =
      queue
        (record {
          packet = record { addr = addr_pair (connection e); raw = raw };
          conn = some e.id;
          end = end;
          track = track;
        })
        e.stack;
}

unfoldable pub emit : ℕ → ℕ → List ℕ → Bool → Env → Env
emit flags seq bytes track e =
    queue_built e (u32 (seq + length bytes + one_if (has_syn flags) + one_if (has_fin flags))) track
      (build_tcp_pkt e.check [] (emitted e.conn flags seq bytes) (addr_pair (connection e)))

unfoldable pub ack : Env → Env
unfolding emit
ack e = emit tcp_flags_ack e.conn.snd_nxt [] false e
