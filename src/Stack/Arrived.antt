-- ===== src/Stack/Arrived.antt =====
-- protocol/tcp/tcp.go: what `input` does with the payload and the FIN of a segment. `err` is an early
-- return.
use Prim.Native.Nat.{min}
use halo.Base.{
  ℕ, Bool, true, ◌+◌, List, some, ◌==◌, ◌&&◌, not, if◌then◌else◌, ltb, length, drop, u32, ok, err,
  Result,
}
use halo.Protocol.Tcp.{TcpPkt}
use halo.Stack.Buffer.{write}
use halo.Stack.Types.{
  TcpState, established, fin_wait1, fin_wait2, close_wait, closing, data_after_close, Conn,
  negative32, seq_less, has_fin,
}
use halo.Stack.Emit.{Env, notify, fail, enter_time_wait}
use halo.Stack.Emit.{notified}
use halo.Stack.Admission.{behind}

-- The part of the payload that was not received before, and its offset.
abbrev pub fresh_data : TcpPkt → ℕ → List ℕ
fresh_data p d =
    if negative32 d then drop (min (behind d) (length p.payload)) p.payload else p.payload

abbrev pub fresh_offset : TcpPkt → ℕ → ℕ
fresh_offset p d = if negative32 d then u32 (d + min (behind d) (length p.payload)) else d

abbrev pub received : List ℕ → Conn → Conn
received bytes c =
    let (n, rx) = write c.rx bytes in notify (record c { rx = rx; rcv_nxt = u32 (c.rcv_nxt + n) })

unfoldable pub receive_data : TcpPkt → ℕ → Env → Result Env Env
receive_data p d e =
    if fresh_offset p d == 0 && (not (length (fresh_data p d) == 0) && not e.conn.recv_fin)
    then (if e.conn.app_closed
        then err (fail (some data_after_close) true e)
        else ok (record e { conn = received (fresh_data p d) e.conn }))
    else ok e

-- The switch behind the peer's FIN.
abbrev pub fin_received : ℕ → TcpState → Env → Env
fin_received now established e = record e { conn = record e.conn { state = close_wait } }
fin_received now fin_wait1 e = record e { conn = record e.conn { state = closing } }
fin_received now fin_wait2 e = enter_time_wait now e
fin_received now _ e = e

abbrev pub takes_fin : TcpPkt → ℕ → ℕ → Conn → Bool
takes_fin p wnd right c =
    let fin_seq = u32 (p.seq_num + length p.payload) in
    has_fin p.flags
    && (not c.recv_fin && (fin_seq == c.rcv_nxt && (ltb 0 wnd && seq_less fin_seq right)))

unfoldable pub receive_fin : TcpPkt → ℕ → ℕ → ℕ → Env → Env
receive_fin p wnd right now e =
    if takes_fin p wnd right e.conn
    then notified (
        fin_received now e.conn.state (record e {
          conn = record e.conn { recv_fin = true; rcv_nxt = u32 (e.conn.rcv_nxt + 1) };
        }))
    else e
