-- ===== src/Stack/Tick/Cases.antt =====
-- protocol/tcp/tcp.go: the branches of `tick`, for a property of the connection that it leaves.
use halo.Base.{ℕ, true, false, ◌≡◌, ◌&&◌, ◌==◌, not, leb, if_rule, Option, some, none}
use halo.Stack.Types.{Outbound, err_timeout, is_closed, is_time_wait}
use halo.Stack.Emit.{Env, fail}
use halo.Stack.Pump.{pump}
use halo.Stack.Tick.{
  opening, timed_out, requeue, probes, tick_probe, retransmit, tick_timers, tick_pending, tick,
  send_again, back_off,
}

module _ (P : Env → Type 0) (now : ℕ) (e : Env) where
  pub retransmit_cases :
      P e → P (send_again (record e { conn = back_off now e.conn })) → P (retransmit now e)
  unfolding retransmit
  retransmit_cases same again =
      if_rule P (not (e.conn.snd_una == e.conn.snd_nxt) && leb e.conn.retransmit_at now)
        (λ _. again) (λ _. same)

  pub tick_timers_cases :
      P e
      → (opening e.conn ≡ false → P (tick_probe now e))
      → (opening e.conn ≡ false → P (pump now (retransmit now e)))
      → P (tick_timers now e)
  tick_timers_cases same probed sent =
      if_rule P (opening e.conn) (λ _. same)
        (λ a. if_rule P (probes e.conn) (λ _. probed a) (λ _. sent a))

  tick_pending_cases :
      (o : Option Outbound)
      → ((out : Outbound) → P (requeue now out e))
      → P (tick_timers now e)
      → P (tick_pending now o e)
  tick_pending_cases none again timers = timers
  tick_pending_cases (some out) again timers =
      if_rule P (leb e.conn.pending_at now) (λ _. again out) (λ _. timers)

  pub tick_cases :
      P e
      → P (fail none false e)
      → P (fail (some err_timeout) true e)
      → ((out : Outbound) → P (requeue now out e))
      → (is_closed e.conn.state ≡ false → is_time_wait e.conn.state ≡ false → P (tick_timers now e))
      → P (tick now e)
  unfolding tick
  tick_cases same ended expired again timers =
      if_rule P (is_closed e.conn.state) (λ _. same)
        λ a.
          if_rule P (is_time_wait e.conn.state)
            (λ _. if_rule P (leb e.conn.time_wait_end now) (λ _. ended) (λ _. same))
            λ b.
              if_rule P (timed_out now e.conn) (λ _. expired)
                (λ _. tick_pending_cases e.conn.pending again (timers a b))
