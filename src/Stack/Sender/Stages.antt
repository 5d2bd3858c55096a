-- ===== src/Stack/Sender/Stages.antt =====
-- protocol/tcp/tcp.go: the parts of `input`, `pump` and `tick` and the send side of a connection.
use halo.Base.{ℕ, Bool, true, ◌≡◌, arith, Option, not, ◌==◌, ◌||◌, ◌&&◌, if_rule}
use halo.Stack.Types.{Conn, ConnError, can_send}
use halo.Stack.Emit.{Env, fail}
use halo.Stack.Pump.{pump, flown, finished, plan_probe}
use halo.Stack.Pump.Cases.{pump_cases, pump_data_conn, pump_fin_conn}
use halo.Stack.Diagram.Stages.{fail_state}
use halo.Stack.Sender.{IsSending, IsSound}

pub fail-IsSound : (x : Option ConnError) (wanted : Bool) (e : Env) → IsSound (fail x wanted e).conn
fail-IsSound x wanted e = ground (arith, fail_state x wanted e)

plan_probe-IsSending : (now : ℕ) (c : Conn) → IsSending c → IsSending (plan_probe now c)
plan_probe-IsSending now c v =
    if_rule IsSending ((not (c.tx.size == 0) || c.write_closed) && c.probe_at == 0)
      (λ _. ground arith) (λ _. v)

flown-IsSending :
    (now : ℕ) (c : Conn)
    → IsSending c
    → can_send c.state ≡ true
    → c.inflight ≡ 0
    → IsSending (flown now c)
flown-IsSending now c v h k = ground arith

finished-IsSending :
    (now : ℕ) (c : Conn)
    → IsSending c
    → can_send c.state ≡ true
    → c.inflight ≡ 0
    → c.tx.size ≡ 0
    → IsSending (finished now c)
finished-IsSending now c v h k z = ground arith

pub pump-IsSending : (now : ℕ) (e : Env) → IsSending e.conn → IsSending (pump now e).conn
pump-IsSending now e v =
    pump_cases (λ f. IsSending f.conn) now e v (plan_probe-IsSending now e.conn v)
      (λ a b _ _. rw (pump_data_conn now e) (flown-IsSending now e.conn v a b))
      (λ a b c _. rw (pump_fin_conn now e) (finished-IsSending now e.conn v a b c))
