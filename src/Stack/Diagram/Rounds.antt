-- ===== src/Stack/Diagram/Rounds.antt =====
-- protocol/tcp/tcp.go and conn.go: the timers and the methods of a connection along the diagram.
use halo.Stack.Buffer.{peek, read}
use halo.Base.{IsU32, ℕ, some, true, false, [], ◌∷◌, Option, List, arith}
use halo.Protocol.Tcp.{TcpPkt}
use halo.Stack.Types.{err_closed, sub32}
use halo.Stack.Emit.{Env}
use halo.Stack.Emit.Sent.{emit_state, ack_conn}
use halo.Stack.Pump.{pump}
use halo.Stack.Tick.{
  tick, tick_probe, retransmit, send_probe, send_again, plan_first_probe, probe_flight,
}
use halo.Stack.Tick.Cases.{tick_cases, tick_timers_cases, retransmit_cases}
use halo.Stack.Calls.{
  app_shut, lingering, enqueued, half_closed, read_round, write_round, shut_write, close_conn,
  set_deadlines,
}
use halo.Stack.Diagram.{here, Moves, Moves-Reach, Reach-trans}
use halo.Stack.Diagram.Stages.{pump-Moves, fail_state}
use halo.Stack.Diagram.Segments.{Follows, fail-Reach, input-Follows}
use halo.Stack.Segment.{input}
use halo.Base.{IsU32}

pump-Reach : (now : ℕ) (e : Env) → Follows e (pump now e)
pump-Reach now e = Moves-Reach _ _ (pump-Moves now e)

send_probe-Moves : (e : Env) → Moves e.conn.state (send_probe e).conn.state
unfolding send_probe
send_probe-Moves e = ground (
  arith,
  emit_state 16 e.conn.snd_una (peek e.conn.tx 1) true (record e { conn = probe_flight e.conn }),
  emit_state 16 (sub32 e.conn.snd_nxt 1) (0 ∷ []) false e,
)

send_again-Moves : (e : Env) → Moves e.conn.state (send_again e).conn.state
unfolding send_again
send_again-Moves e = ground (
  arith,
  emit_state 24 e.conn.snd_una (peek e.conn.tx e.conn.inflight) true e,
  emit_state 17 e.conn.fin_seq [] true e,
)

tick_probe-Moves : (now : ℕ) (e : Env) → Moves e.conn.state (tick_probe now e).conn.state
unfolding tick_probe
tick_probe-Moves now e = ground (
  arith,
  send_probe-Moves (record e { conn = record (plan_first_probe now e.conn) { rtt_valid = false } }),
)

pub tick-Follows : (now : ℕ) (e : Env) → Follows e (tick now e)
tick-Follows now e =
    tick_cases (Follows e) now e here (fail-Reach _ _ e) (fail-Reach _ _ e) (λ _. here)
      λ _ _.
        tick_timers_cases (Follows e) now e here (λ _. Moves-Reach _ _ (tick_probe-Moves now e))
          λ _.
            Reach-trans
              (retransmit_cases (Follows e) now e here (Moves-Reach _ _ (send_again-Moves _)))
              (pump-Reach now (retransmit now e))

pub read_round-Follows : (now : ℕ) (p : List ℕ) (e : Env) → Follows e (read_round now p e).2
unfolding read_round
read_round-Follows now p e =
    Moves-Reach _ _
      (ground (arith, ack_conn (record e { conn = record e.conn { rx = (read e.conn.rx p).2 } })))

pub write_round-Follows :
    (now : ℕ) (p : List ℕ) (n : ℕ) (e : Env) → Follows e (write_round now p n e).1
unfolding write_round
write_round-Follows now p n e =
    Moves-Reach _ _ (ground (arith, pump-Moves now (record e { conn = enqueued now p n e.conn })))

pub shut_write-Follows : (now : ℕ) (e : Env) → Follows e (shut_write now e).1
unfolding shut_write
shut_write-Follows now e =
    Moves-Reach _ _ (ground (arith, pump-Moves now (record e { conn = half_closed now e.conn })))

pub close_conn-Follows : (now : ℕ) (e : Env) → Follows e (close_conn now e).1
unfolding close_conn
close_conn-Follows now e =
    let f : Env = record e { conn = app_shut e.conn } in
    Moves-Reach _ _ (
      ground (
        arith,
        fail_state (some err_closed) true f,
        pump-Moves now (record f { conn = lingering now f.conn }),
      ))

pub set_deadlines-Follows : (rd wd : Option ℕ) (e : Env) → Follows e (set_deadlines rd wd e).1
unfolding set_deadlines
set_deadlines-Follows rd wd e = Moves-Reach _ _ (ground arith)

-- What a connection can go through while its stack runs. The numbers of a segment have 32 bits.
pub data Step : Env → Env → Type 0 where
  arrives :
      (p : TcpPkt) (now : ℕ) (e : Env) → IsU32 p.seq_num → IsU32 p.ack_num → Step e (input p now e)
  ticks : (now : ℕ) (e : Env) → Step e (tick now e)
  reads : (now : ℕ) (p : List ℕ) (e : Env) → Step e (read_round now p e).2
  writes : (now : ℕ) (p : List ℕ) (n : ℕ) (e : Env) → Step e (write_round now p n e).1
  shuts : (now : ℕ) (e : Env) → Step e (shut_write now e).1
  closes : (now : ℕ) (e : Env) → Step e (close_conn now e).1
  sets : (rd wd : Option ℕ) (e : Env) → Step e (set_deadlines rd wd e).1

-- A segment, a round of the ticker and every method of a connection move its state along the edges
-- of the state diagram of TCP, in which a connection may also be given up in every state, and
-- a simultaneous open has no edge.
pub Step-Follows : {e f : Env} → Step e f → Follows e f
Step-Follows (arrives p now e u v) = input-Follows p now e
Step-Follows (ticks now e) = tick-Follows now e
Step-Follows (reads now p e) = read_round-Follows now p e
Step-Follows (writes now p n e) = write_round-Follows now p n e
Step-Follows (shuts now e) = shut_write-Follows now e
Step-Follows (closes now e) = close_conn-Follows now e
Step-Follows (sets rd wd e) = set_deadlines-Follows rd wd e
