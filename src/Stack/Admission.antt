-- ===== src/Stack/Admission.antt =====
-- protocol/tcp/tcp.go: the checks of `input` on the sequence numbers of a segment, and the last step of
-- a handshake.
use halo.Base.{
  ℕ, Bool, suc, ◌+◌, ◌-◌, ◌^◌, [], ◌∷◌, ◌++◌, Option, none, some, ◌==◌, ◌&&◌, ◌||◌, not, ltb,
  length,
}
use halo.Protocol.Tcp.{TcpPkt, has_syn}
use halo.Stack.Types.{established, Conn, Listener, Stack, sub32, negative32, has_fin}
use halo.Stack.Emit.{Env, dec, one_if, change_listener}

-- `len(c.rx.data) - c.rx.size`
abbrev pub window : Conn → ℕ
window c = length c.rx.bytes - c.rx.size

-- `segLen`
abbrev pub seg_len : TcpPkt → ℕ
seg_len p = length p.payload + one_if (has_syn p.flags) + one_if (has_fin p.flags)

-- `uint32(offset)`: how far the segment starts from what is awaited.
abbrev pub offset : TcpPkt → Conn → ℕ
offset p c = sub32 p.seq_num c.rcv_nxt

-- `-offset`, for a negative offset.
abbrev pub behind : ℕ → ℕ
behind d = 2 ^ 32 - d

unfoldable pub acceptable : TcpPkt → Conn → Bool
acceptable p c =
    let d = offset p c in
    (seg_len p == 0 && d == 0)
    || (ltb 0 (window c)
        && ((negative32 d || ltb d (window c))
            && ((seg_len p == 0 && not (negative32 d))
                || (ltb 0 (seg_len p) && (not (negative32 d) || ltb (behind d) (seg_len p))))))

-- The last ACK of the handshake.
abbrev pub handshaken : TcpPkt → Conn → Conn
handshaken p c = record c { state = established; snd_una = p.ack_num; pending = none }

abbrev pub admit : ℕ → Listener → Listener
admit id l = record l {
  incomplete = dec l.incomplete;
  pending = l.pending ++ (id ∷ []);
  event = suc l.event;
}

-- A connection in this state has a listener: without one, the code would panic here.
abbrev pub admit_to : ℕ → Option ℕ → Stack → Stack
admit_to id none s = s
admit_to id (some l) s = change_listener l (admit id) s

abbrev pub establish : TcpPkt → Env → Env
establish p e = record e {
  conn = handshaken p e.conn;
  stack = admit_to e.id e.conn.listener e.stack;
}
