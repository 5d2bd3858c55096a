-- ===== src/Stack/Diagram/Stages.antt =====
-- protocol/tcp/tcp.go: how each part of `input`, `pump` and `tick` moves the state of a connection.
use halo.Base.{ℕ, ◌+◌, [], Bool, ◌≡◌, Option, arith, true}
use halo.Protocol.Tcp.{TcpPkt}
use halo.Stack.Types.{Conn, ConnError, closed, syn_sent, time_wait_duration}
use halo.Stack.Buffer.{peek}
use halo.Stack.Emit.{Env, fail, ack}
use halo.Stack.Emit.Sent.{emit_conn, ack_conn}
use halo.Stack.Pump.{pump, flight, flown, finished}
use halo.Stack.Segment.{connected, returned, answer, input_syn_sent, input_time_wait}
use halo.Stack.Acks.{consume, update_rtt, take_ack, acked}
use halo.Stack.Arrived.{receive_data, receive_fin}
use halo.Stack.Diagram.{Moves}
use halo.Stack.Buffer.Read.{length-peek}

pub fail_state :
    (x : Option ConnError) (wanted : Bool) (e : Env) → (fail x wanted e).conn.state ≡ closed
unfolding fail
fail_state x wanted e = ground arith

pub pump-Moves : (now : ℕ) (e : Env) → Moves e.conn.state (pump now e).conn.state
unfolding pump
pump-Moves now e = ground (
  arith,
  emit_conn 24 e.conn.snd_nxt (peek e.conn.tx (flight e.conn)) true
      (record e { conn = flown now e.conn }),
  length-peek e.conn.tx (flight e.conn),
  emit_conn 17 e.conn.snd_nxt [] true (record e { conn = finished now e.conn }),
)

pub receive_fin-Moves :
    (p : TcpPkt) (wnd right now : ℕ) (e : Env)
    → Moves e.conn.state (receive_fin p wnd right now e).conn.state
unfolding receive_fin
receive_fin-Moves p wnd right now e = ground arith

pub input_syn_sent-Moves :
    (p : TcpPkt) (e : Env)
    → e.conn.state ≡ syn_sent
    → Moves e.conn.state (input_syn_sent p e).conn.state
unfolding input_syn_sent fail
input_syn_sent-Moves p e h = ground (arith, ack_conn (record e { conn = connected p e.conn }))

pub input_time_wait-Moves :
    (p : TcpPkt) (now : ℕ) (e : Env) → Moves e.conn.state (input_time_wait p now e).conn.state
unfolding input_time_wait
input_time_wait-Moves p now e = ground (
  arith,
  ack_conn e,
  ack_conn (record e { conn = record e.conn { time_wait_end = now + time_wait_duration } }),
)

acked_state : (p : TcpPkt) (now : ℕ) (c : Conn) → (acked p now c).state ≡ c.state
unfolding acked consume update_rtt
acked_state p now c = ground arith

pub take_ack-Moves :
    (p : TcpPkt) (now : ℕ) (e : Env) → Moves e.conn.state (returned (take_ack p now e)).conn.state
unfolding take_ack fail
take_ack-Moves p now e = ground (arith, acked_state p now e.conn)

pub receive_data-Moves :
    (p : TcpPkt) (d : ℕ) (e : Env) → Moves e.conn.state (returned (receive_data p d e)).conn.state
unfolding receive_data fail
receive_data-Moves p d e = ground arith

pub answer-Moves : (p : TcpPkt) (now : ℕ) (e : Env) → Moves e.conn.state (answer p now e).conn.state
answer-Moves p now e = ground (arith, ack_conn e, pump-Moves now e, pump-Moves now (ack e))
