-- ===== src/Stack/Emit/Sent.antt =====
-- protocol/tcp/tcp.go: `emit` and `ack`, whose segments are always short enough to build.
use halo.Base.{
  ℕ, ◌+◌, ◌-◌, ◌≡◌, ◌≤◌, List, [], length, some, u32, ok, err, arith, refl, Bool, not, ltb,
  if◌then◌else◌, ◌==◌, ◌&&◌, ap, ◌⊎◌, false,
}
use halo.Protocol.Tcp.{build_tcp_pkt, tcp_header_len, has_syn}
use halo.Stack.Types.{closed, Conn, Outbound, has_fin, tcp_flags_ack}
use halo.Stack.Emit.{Env, emit, ack, queue, fail, emitted, one_if, addr_pair, connection}
use halo.Stack.Emit.{Ipv4AddrPair}
use halo.Base.{false}
use halo.Base.{not}
use halo.Protocol.Tcp.{tcp_buffer_not_empty}
use halo.Protocol.Tcp.{tcp_mss_without_syn}
use halo.Protocol.Tcp.{tcp_too_long}

-- The most that a segment with the one option there is can carry.
abbrev pub room : ℕ
room = 1456

guarded :
    {E A : Type 0} (a b c : Bool) (x y z : E) (v : A)
    → a ≡ false
    → b ≡ false
    → c ≡ false
    → (if a then err x else if b then err y else if c then err z else ok v) ≡ ok v
guarded a b c x y z v p q r = rw (p, q, r)

pub build-emitted :
    (check : Bool) (c : Conn) (flags seq : ℕ) (bytes : List ℕ) (addr : Ipv4AddrPair)
    → length bytes ≤ room
    → (raw : List ℕ) × (build_tcp_pkt check [] (emitted c flags seq bytes) addr ≡ ok raw)
unfolding build_tcp_pkt
build-emitted check c flags seq bytes addr h = (
  _,
  guarded (not (length {A = ℕ} [] == 0))
      (not ((emitted c flags seq bytes).mss == 0) && not (has_syn flags))
      (ltb (1480 - tcp_header_len (emitted c flags seq bytes)) (length bytes)) tcp_buffer_not_empty
      tcp_mss_without_syn tcp_too_long _ refl (ground arith) (ground arith),
)

-- What `emit` queues.
abbrev pub outbound : Env → ℕ → ℕ → List ℕ → Bool → List ℕ → Outbound
outbound e flags seq bytes track raw = record {
  packet = record { addr = addr_pair (connection e); raw = raw };
  conn = some e.id;
  end = u32 (seq + length bytes + one_if (has_syn flags) + one_if (has_fin flags));
  track = track;
}

pub emit-queues :
    (flags seq : ℕ) (bytes : List ℕ) (track : Bool) (e : Env)
    → length bytes ≤ room
    → (raw : List ℕ) × (build_tcp_pkt e.check []
          (emitted e.conn flags seq bytes)
          (addr_pair (connection e))
        ≡ ok raw)
      × (emit flags seq bytes track e
          ≡ record e { stack = queue (outbound e flags seq bytes track raw) e.stack })
unfolding emit
emit-queues flags seq bytes track e h =
    let (raw, b) = build-emitted e.check e.conn flags seq bytes (addr_pair (connection e)) h in
    (raw, b, rw b)

pub emit_conn :
    (flags seq : ℕ) (bytes : List ℕ) (track : Bool) (e : Env)
    → length bytes ≤ room
    → (emit flags seq bytes track e).conn ≡ e.conn
emit_conn flags seq bytes track e h =
    let (raw, b, sent) = emit-queues flags seq bytes track e h in ap (λ (f : Env). f.conn) sent

pub ack_conn : (e : Env) → (ack e).conn ≡ e.conn
unfolding ack
ack_conn e = emit_conn tcp_flags_ack e.conn.snd_nxt [] false e (omega arith)

-- A segment that cannot be built closes the connection.
pub emit_state :
    (flags seq : ℕ) (bytes : List ℕ) (track : Bool) (e : Env)
    → ((emit flags seq bytes track e).conn.state ≡ e.conn.state)
      ⊎ ((emit flags seq bytes track e).conn.state ≡ closed)
unfolding emit fail
emit_state flags seq bytes track e = ground arith
