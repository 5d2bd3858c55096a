-- ===== src/Stack/Receiver/Frame.antt =====
-- protocol/tcp/tcp.go: what leaves the receive side of a connection alone.
use halo.Base.{ℕ, Bool, ◌+◌, ◌==◌, ◌||◌, List, Option, arith, refl, if_rule, not, length}
use halo.Protocol.Tcp.{TcpPkt}
use halo.Stack.Types.{Conn, ConnError, has_fin, time_wait_duration}
use halo.Stack.Emit.{Env, emit, ack, fail}
use halo.Stack.Pump.{pump}
use halo.Stack.Pump.Cases.{pump_cases, pump_data_conn, pump_fin_conn}
use halo.Stack.Emit.Sent.{ack_conn}
use halo.Stack.Admission.{establish}
use halo.Stack.Acks.{update_window, take_ack, newer_window, consume, acked, update_rtt}
use halo.Stack.Segment.{returned, answer, input_time_wait}
use halo.Stack.Receiver.{SameRx, SameRx-trans}

pub SameRx-refl : (c : Conn) → SameRx c c
SameRx-refl c = record { rx = refl; rcv_nxt = refl }

-- The receive side from one state of a method to another.
abbrev pub Keeps : Env → Env → Type 0
Keeps e f = SameRx e.conn f.conn

pub fail-Keeps : (x : Option ConnError) (wanted : Bool) (e : Env) → Keeps e (fail x wanted e)
unfolding fail
fail-Keeps x wanted e = ground arith

pub emit-Keeps :
    (flags seq : ℕ) (bytes : List ℕ) (track : Bool) (e : Env)
    → Keeps e (emit flags seq bytes track e)
unfolding emit fail
emit-Keeps flags seq bytes track e = ground arith

pub ack-Keeps : (e : Env) → Keeps e (ack e)
ack-Keeps e = ground (arith, ack_conn e)

pub pump-Keeps : (now : ℕ) (e : Env) → Keeps e (pump now e)
pump-Keeps now e =
    pump_cases (Keeps e) now e (SameRx-refl e.conn) (ground arith)
      (λ _ _ _ _. ground (arith, pump_data_conn now e))
      (λ _ _ _ _. ground (arith, pump_fin_conn now e))

pub update_window-SameRx : (p : TcpPkt) (now : ℕ) (c : Conn) → SameRx c (update_window p now c)
update_window-SameRx p now c =
    if_rule (SameRx c) (newer_window p c) (λ _. ground arith) (λ _. SameRx-refl c)

acked-SameRx : (p : TcpPkt) (now : ℕ) (c : Conn) → SameRx c (acked p now c)
unfolding acked consume update_rtt
acked-SameRx p now c = ground arith

pub take_ack-Keeps : (p : TcpPkt) (now : ℕ) (e : Env) → Keeps e (returned (take_ack p now e))
unfolding take_ack fail
take_ack-Keeps p now e = ground (arith, acked-SameRx p now e.conn)

pub establish-Keeps : (p : TcpPkt) (e : Env) → Keeps e (establish p e)
establish-Keeps p e = record { rx = refl; rcv_nxt = refl }

pub answer-Keeps : (p : TcpPkt) (now : ℕ) (e : Env) → Keeps e (answer p now e)
answer-Keeps p now e =
    if_rule (λ (f : Env). Keeps e (pump now f)) (not (length p.payload == 0) || has_fin p.flags)
      (λ _. SameRx-trans (ack-Keeps e) (pump-Keeps now (ack e))) (λ _. pump-Keeps now e)

pub input_time_wait-Keeps : (p : TcpPkt) (now : ℕ) (e : Env) → Keeps e (input_time_wait p now e)
unfolding input_time_wait
input_time_wait-Keeps p now e = ground (
  arith,
  ack_conn e,
  ack_conn (record e { conn = record e.conn { time_wait_end = now + time_wait_duration } }),
)
