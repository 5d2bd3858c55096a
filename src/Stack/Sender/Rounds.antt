-- ===== src/Stack/Sender/Rounds.antt =====
-- protocol/tcp/tcp.go and conn.go: the timers and the methods of a connection, and its send side.
use halo.Base.{
  ℕ, true, false, ◌≡◌, ◌≢◌, inr, arith, if_rule, leb, not, ◌==◌, ◌&&◌, Option, List, [], ◌∷◌, some,
  none, drop,
}
use halo.Stack.Types.{
  is_closed, is_time_wait, can_send, Conn, Outbound, err_timeout, err_closed, sub32,
}
use halo.Stack.Buffer.{peek, read}
use halo.Stack.Buffer.Read.{length-peek}
use halo.Stack.Buffer.Write.{write-queued}
use halo.Stack.Emit.{Env}
use halo.Stack.Emit.Sent.{emit_conn}
use halo.Stack.Tick.{
  tick, tick_probe, retransmit, requeue, send_probe, send_again, back_off, opening,
  plan_first_probe, probe_flight, back_off_probe,
}
use halo.Stack.Tick.Cases.{tick_cases, tick_timers_cases, retransmit_cases}
use halo.Stack.Calls.{
  IoError, app_shut, lingering, enqueued, half_closed, read_round, write_round, shut_write,
  close_conn, set_deadlines,
}
use halo.Stack.Diagram.Rounds.{
  Step, arrives, ticks, reads, writes, shuts, closes, sets, Step-Follows,
}
use halo.Stack.Sender.{IsSending, IsSound}
use halo.Stack.Sender.Stages.{pump-IsSending, fail-IsSound}
use halo.Stack.Sender.Segments.{input-IsSound, ack-IsSending, then_IsSound}

send_again-IsSending : (e : Env) → IsSending e.conn → IsSending (send_again e).conn
unfolding send_again
send_again-IsSending e v = ground (
  arith,
  emit_conn 24 e.conn.snd_una (peek e.conn.tx e.conn.inflight) true e,
  emit_conn 17 e.conn.fin_seq [] true e,
  length-peek e.conn.tx e.conn.inflight,
)

probe_flight-IsSending :
    (c : Conn) → IsSending c → opening c ≡ false → c.tx.size ≢ 0 → IsSending (probe_flight c)
probe_flight-IsSending c v o h = if_rule IsSending (c.inflight == 0) (λ k. ground arith) (λ _. v)

send_probe-IsSending :
    (e : Env) → IsSending e.conn → opening e.conn ≡ false → IsSending (send_probe e).conn
unfolding send_probe
send_probe-IsSending e v o =
    if_rule (λ (f : Env). IsSending f.conn) (not (e.conn.tx.size == 0))
      (λ h.
        rw
          (emit_conn 16 e.conn.snd_una (peek e.conn.tx 1) true
            (record e { conn = probe_flight e.conn }) (omega (arith, length-peek e.conn.tx 1)))
          (probe_flight-IsSending e.conn v o (ground arith)))
      (λ _. rw (emit_conn 16 (sub32 e.conn.snd_nxt 1) (0 ∷ []) false e (omega arith)) v)

plan_first_probe-IsSending : (now : ℕ) (c : Conn) → IsSending c → IsSending (plan_first_probe now c)
plan_first_probe-IsSending now c v =
    if_rule IsSending (c.probe_at == 0) (λ _. ground arith) (λ _. v)

unmeasured-IsSending : (c : Conn) → IsSending c → IsSending (record c { rtt_valid = false })
unmeasured-IsSending c v = ground arith

back_off_probe-IsSending :
    (now : ℕ) (e : Env) → IsSending e.conn → IsSending (back_off_probe now e).conn
back_off_probe-IsSending now e v = ground arith

tick_probe-IsSending :
    (now : ℕ) (e : Env)
    → IsSending e.conn
    → opening e.conn ≡ false
    → IsSending (tick_probe now e).conn
unfolding tick_probe
tick_probe-IsSending now e v o =
    let c : Conn = plan_first_probe now e.conn in
    let w : IsSending c = plan_first_probe-IsSending now e.conn v in
    if_rule (λ (f : Env). IsSending f.conn) (leb c.probe_at now)
      (λ _.
        back_off_probe-IsSending now
          (send_probe (record e { conn = record c { rtt_valid = false } }))
          (send_probe-IsSending (record e { conn = record c { rtt_valid = false } })
            (unmeasured-IsSending c w) (ground arith)))
      (λ _. w)

requeue-IsSending :
    (now : ℕ) (out : Outbound) (e : Env) → IsSending e.conn → IsSending (requeue now out e).conn
requeue-IsSending now out e v = ground arith

back_off-IsSending : (now : ℕ) (c : Conn) → IsSending c → IsSending (back_off now c)
back_off-IsSending now c v = ground arith

tick-Sending : (now : ℕ) (e : Env) → IsSending e.conn → IsSound (tick now e).conn
tick-Sending now e v =
    let P = λ (f : Env). IsSound f.conn in
    tick_cases P now e (inr v) (fail-IsSound none false e) (fail-IsSound (some err_timeout) true e)
      (λ out. inr (requeue-IsSending now out e v))
      λ _ _.
        tick_timers_cases P now e (inr v) (λ o. inr (tick_probe-IsSending now e v o))
          λ _. inr (
            pump-IsSending now (retransmit now e) (
              retransmit_cases (λ (f : Env). IsSending f.conn) now e v
                (send_again-IsSending (record e { conn = back_off now e.conn })
                  (back_off-IsSending now e.conn v))))

read-Sending :
    (now : ℕ) (p : List ℕ) (e : Env) → IsSending e.conn → IsSound (read_round now p e).2.conn
unfolding read_round
read-Sending now p e v =
    ground (arith, ack-IsSending (record e { conn = record e.conn { rx = (read e.conn.rx p).2 } }))

enqueued-IsSending :
    (now : ℕ) (p : List ℕ) (n : ℕ) (c : Conn)
    → IsSending c
    → can_send c.state ≡ true
    → IsSending (enqueued now p n c)
enqueued-IsSending now p n c v h = ground (arith, write-queued c.tx (drop n p) v.ring)

write-Sending :
    (now : ℕ) (p : List ℕ) (n : ℕ) (e : Env)
    → IsSending e.conn
    → IsSound (write_round now p n e).1.conn
unfolding write_round
write-Sending now p n e v = ground (
  arith,
  pump-IsSending now (record e { conn = enqueued now p n e.conn }),
  enqueued-IsSending now p n e.conn v,
)

half_closed-IsSending : (now : ℕ) (c : Conn) → IsSending c → IsSending (half_closed now c)
half_closed-IsSending now c v = ground arith

shut-Sending : (now : ℕ) (e : Env) → IsSending e.conn → IsSound (shut_write now e).1.conn
unfolding shut_write
shut-Sending now e v = ground (
  arith,
  pump-IsSending now (record e { conn = half_closed now e.conn })
      (half_closed-IsSending now e.conn v),
)

app_shut-IsSending : (c : Conn) → IsSending c → IsSending (app_shut c)
app_shut-IsSending c v = ground arith

lingering-IsSending : (now : ℕ) (c : Conn) → IsSending c → IsSending (lingering now c)
lingering-IsSending now c v = ground arith

close-Sending : (now : ℕ) (e : Env) → IsSending e.conn → IsSound (close_conn now e).1.conn
unfolding close_conn
close-Sending now e v =
    let f : Env = record e { conn = app_shut e.conn } in
    let w : IsSending f.conn = app_shut-IsSending e.conn v in
    let P = λ (r : Option IoError × Env). IsSound r.1.conn in
    if_rule P e.conn.app_closed (λ _. inr v)
      λ _.
        if_rule P (not (e.conn.rx.size == 0)) (λ _. fail-IsSound (some err_closed) true f)
          λ _.
            if_rule P (not (is_closed e.conn.state) && not (is_time_wait e.conn.state))
              (λ _. inr (
                pump-IsSending now (record f { conn = lingering now f.conn })
                  (lingering-IsSending now f.conn w)))
              (λ _. inr w)

sets-Sending :
    (rd wd : Option ℕ) (e : Env) → IsSending e.conn → IsSound (set_deadlines rd wd e).1.conn
unfolding set_deadlines
sets-Sending rd wd e v = ground arith

Step-Sending : {e f : Env} → Step e f → IsSending e.conn → IsSound f.conn
Step-Sending (arrives p now e u w) v = input-IsSound p now e w (inr v)
Step-Sending (ticks now e) v = tick-Sending now e v
Step-Sending (reads now p e) v = read-Sending now p e v
Step-Sending (writes now p n e) v = write-Sending now p n e v
Step-Sending (shuts now e) v = shut-Sending now e v
Step-Sending (closes now e) v = close-Sending now e v
Step-Sending (sets rd wd e) v = sets-Sending rd wd e v

-- A step of a connection whose send side is sound leaves it sound, where sound means that the
-- connection is closed or waits in TIME_WAIT, or that the send ring is well formed, the bytes in
-- flight are the first of the queue and one segment at most, the sequence numbers from `sndUna` to
-- `sndNxt` are those of the bytes in flight and of a SYN or FIN without an acknowledgment, a FIN
-- was sent exactly in the states behind it, and the queue is empty where no data is sent.
pub Step-IsSound : {e f : Env} → Step e f → IsSound e.conn → IsSound f.conn
Step-IsSound {e} {f} st v = then_IsSound e f v (Step-Follows st) (Step-Sending st)
