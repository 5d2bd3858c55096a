-- ===== src/Stack/Pump/Cases.antt =====
-- protocol/tcp/tcp.go: the branches of `pump`, and what they leave of the connection.
use halo.Base.{ℕ, true, false, ◌≡◌, ◌≢◌, ◌==◌, ◌&&◌, not, if_rule, arith, [], length}
use halo.Stack.Types.{Conn, can_send}
use halo.Stack.Buffer.{peek}
use halo.Stack.Buffer.Read.{length-peek}
use halo.Stack.Emit.{Env}
use halo.Stack.Emit.Sent.{emit_conn}
use halo.Stack.Pump.{pump, pump_data, pump_fin, plan_probe, flight, flown, finished}

pub length-flight : (c : Conn) → length (peek c.tx (flight c)) ≡ flight c
length-flight c = ground (arith, length-peek c.tx (flight c))

pub pump_data_conn : (now : ℕ) (e : Env) → (pump_data now e).conn ≡ flown now e.conn
pump_data_conn now e =
    emit_conn 24 e.conn.snd_nxt (peek e.conn.tx (flight e.conn)) true
      (record e { conn = flown now e.conn }) (omega (arith, length-flight e.conn))

pub pump_fin_conn : (now : ℕ) (e : Env) → (pump_fin now e).conn ≡ finished now e.conn
pump_fin_conn now e =
    emit_conn 17 e.conn.snd_nxt [] true (record e { conn = finished now e.conn }) (omega arith)

pub pump_cases :
    (P : Env → Type 0) (now : ℕ) (e : Env)
    → P e
    → P (record e { conn = plan_probe now e.conn })
    → (can_send e.conn.state ≡ true
        → e.conn.inflight ≡ 0
        → e.conn.peer_window ≢ 0
        → e.conn.tx.size ≢ 0
        → P (pump_data now e))
    → (can_send e.conn.state ≡ true
        → e.conn.inflight ≡ 0
        → e.conn.tx.size ≡ 0
        → e.conn.fin_sent ≡ false
        → P (pump_fin now e))
    → P (pump now e)
unfolding pump
pump_cases P now e same probed sent finished =
    if_rule P (not (can_send e.conn.state)) (λ _. same)
      λ a.
        if_rule P (not (e.conn.inflight == 0)) (λ _. same)
          λ b.
            if_rule P (e.conn.peer_window == 0) (λ _. probed)
              λ c.
                if_rule P (not (e.conn.tx.size == 0))
                  (λ d. sent (ground arith) (ground arith) (ground arith) (ground arith))
                  λ d.
                    if_rule P (e.conn.write_closed && not e.conn.fin_sent)
                      (λ f. finished (ground arith) (ground arith) (ground arith) (ground arith))
                      (λ _. same)
