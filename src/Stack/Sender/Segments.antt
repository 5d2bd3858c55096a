-- ===== src/Stack/Sender/Segments.antt =====
-- protocol/tcp/tcp.go: `input` and the send side of a connection.
use halo.Base.{
  [], some, length, not, ◌==◌, ◌||◌, ℕ, true, false, ◌+◌, ◌≡◌, inl, inr, arith, u32, IsU32, refl,
  if_rule,
}
use halo.Protocol.Tcp.{TcpPkt}
use halo.Stack.Types.{
  connection_refused, has_fin, data_after_close, Conn, TcpState, syn_sent, seq_less,
  is_syn_received,
}
use halo.Stack.Emit.{notified, Env, ack}
use halo.Stack.Emit.Sent.{emit_conn, ack_conn}
use halo.Stack.Tick.{opening}
use halo.Stack.Pump.{pump}
use halo.Stack.Admission.{window, establish, offset}
use halo.Stack.Acks.{newer_window, update_window, take_ack}
use halo.Stack.Arrived.{takes_fin, fin_received, receive_data, receive_fin}
use halo.Stack.Segment.{returned, answer, connected, input, input_synchronized, input_syn_sent}
use halo.Stack.Segment.Cases.{returned-bind, input_cases, input_segment_cases}
use halo.Stack.Diagram.{Edge, Reach, here, next, Moves-Reach}
use halo.Stack.Diagram.Stages.{
  fail_state, receive_data-Moves, receive_fin-Moves, answer-Moves, input_time_wait-Moves,
}
use halo.Stack.Diagram.Segments.{Follows, input-Follows}
use halo.Stack.Sender.{IsSending, IsSound, is_over}
use halo.Stack.Sender.Stages.{pump-IsSending, fail-IsSound}
use halo.Stack.Sender.Acks.{take_ack-IsSound}

Edge-over : {s t : TcpState} → Edge s t → is_over s ≡ true → is_over t ≡ true
Edge-over Edge.syn_acked h = cc
Edge-over Edge.handshake_acked h = cc
Edge-over Edge.close_first h = cc
Edge-over Edge.fin_came h = cc
Edge-over Edge.close_second h = cc
Edge-over Edge.own_fin_acked h = cc
Edge-over Edge.fin_crossed h = cc
Edge-over Edge.last_fin_came h = refl
Edge-over Edge.crossed_fin_acked h = refl
Edge-over (Edge.gives_up s) h = refl

pub Reach-over : {s t : TcpState} → is_over s ≡ true → Reach s t → is_over t ≡ true
Reach-over h here = h
Reach-over h (next r e) = Edge-over e (Reach-over h r)

pub ack-IsSending : (e : Env) → IsSending e.conn → IsSending (ack e).conn
ack-IsSending e v = rw (ack_conn e) v

receive_data-IsSound :
    (p : TcpPkt) (d : ℕ) (e : Env) → IsSending e.conn → IsSound (returned (receive_data p d e)).conn
unfolding receive_data
receive_data-IsSound p d e v = ground (arith, fail_state (some data_after_close) true e)

took_fin : Env → Env
took_fin e = record e {
  conn = record e.conn { recv_fin = true; rcv_nxt = u32 (e.conn.rcv_nxt + 1) };
}

fin_received-IsSound :
    (now : ℕ) (e : Env)
    → IsSending e.conn
    → IsSound (notified (fin_received now e.conn.state (took_fin e))).conn
unfolding took_fin
fin_received-IsSound now e v = ground arith

receive_fin-IsSound :
    (p : TcpPkt) (wnd right now : ℕ) (e : Env)
    → IsSending e.conn
    → IsSound (receive_fin p wnd right now e).conn
unfolding receive_fin took_fin
receive_fin-IsSound p wnd right now e v =
    if_rule (λ (f : Env). IsSound f.conn) (takes_fin p wnd right e.conn)
      (λ _. fin_received-IsSound now e v) (λ _. inr v)

answer-IsSending :
    (p : TcpPkt) (now : ℕ) (e : Env) → IsSending e.conn → IsSending (answer p now e).conn
answer-IsSending p now e v =
    if_rule (λ f. IsSending (pump now f).conn) (not (length p.payload == 0) || has_fin p.flags)
      (λ _. pump-IsSending now (ack e) (ack-IsSending e v)) (λ _. pump-IsSending now e v)

establish-IsSending :
    (p : TcpPkt) (e : Env)
    → IsSending e.conn
    → is_syn_received e.conn.state ≡ true
    → p.ack_num ≡ e.conn.snd_nxt
    → IsSending (establish p e).conn
establish-IsSending p e v h k = ground arith

update_window-IsSending :
    (p : TcpPkt) (now : ℕ) (c : Conn) → IsSending c → IsSending (update_window p now c)
update_window-IsSending p now c v =
    if_rule IsSending (newer_window p c) (λ _. ground arith) (λ _. v)

input_syn_sent-IsSound :
    (p : TcpPkt) (e : Env)
    → IsSending e.conn
    → IsU32 p.ack_num
    → e.conn.state ≡ syn_sent
    → IsSound (input_syn_sent p e).conn
unfolding input_syn_sent
input_syn_sent-IsSound p e v u h = ground (
  arith,
  ack_conn (record e { conn = connected p e.conn }),
  fail_state (some connection_refused) false e,
)

-- A stage that moves along the diagram keeps the send side, if it does so while data can be sent.
pub then_IsSound :
    (e f : Env)
    → IsSound e.conn
    → Follows e f
    → (IsSending e.conn → IsSound f.conn)
    → IsSound f.conn
then_IsSound e f (inl over) r k = inl (Reach-over over r)
then_IsSound e f (inr v) r k = k v

input_synchronized-IsSound :
    (p : TcpPkt) (now : ℕ) (e : Env)
    → IsSending e.conn
    → opening e.conn ≡ false
    → IsU32 p.ack_num
    → seq_less e.conn.snd_nxt p.ack_num ≡ false
    → IsSound (input_synchronized p now e).conn
unfolding input_synchronized
input_synchronized-IsSound p now e v o range behind =
    let P = λ (f : Env). IsSound f.conn in
    let f : Env = record e { conn = update_window p now e.conn } in
    returned-bind P (take_ack p now f) _
      (take_ack-IsSound p now f (update_window-IsSending p now e.conn v) (ground arith) range
        (ground arith))
      λ g _ a.
        returned-bind P (receive_data p (offset p e.conn) g) _
          (then_IsSound g (returned (receive_data p (offset p e.conn) g)) a
            (Moves-Reach _ _ (receive_data-Moves p (offset p e.conn) g))
            (receive_data-IsSound p (offset p e.conn) g))
          λ h _ b.
            let right : ℕ = u32 (e.conn.rcv_nxt + window e.conn) in
            let k : Env = receive_fin p (window e.conn) right now h in
            let c : IsSound k.conn =
              then_IsSound h k b (Moves-Reach _ _ (receive_fin-Moves p (window e.conn) right now h))
                (receive_fin-IsSound p (window e.conn) right now h) in
            then_IsSound k (answer p now k) c (Moves-Reach _ _ (answer-Moves p now k))
              (λ w. inr (answer-IsSending p now k w))

input-Sending :
    (p : TcpPkt) (now : ℕ) (e : Env)
    → IsU32 p.ack_num
    → IsSending e.conn
    → IsSound (input p now e).conn
input-Sending p now e u v =
    let P = λ (f : Env). IsSound f.conn in
    input_cases P p now e (λ h. input_syn_sent-IsSound p e v u (ground arith))
      (λ _. inr (rw (emit_conn 18 e.conn.iss [] true e (omega arith)) v))
      (λ h. inl (Reach-over (ground arith) (Moves-Reach _ _ (input_time_wait-Moves p now e))))
      (inr (ack-IsSending e v))
      (λ a b.
        input_segment_cases P p now e (fail-IsSound _ false e) (inr (ack-IsSending e v)) (inr v)
          (λ m h k _.
            input_synchronized-IsSound p now (establish p e) (establish-IsSending p e v h k) refl u
              (ground (arith, m.not_ahead)))
          (λ m h. input_synchronized-IsSound p now e v (ground arith) u m.not_ahead))

-- A segment keeps the send side of a connection.
pub input-IsSound :
    (p : TcpPkt) (now : ℕ) (e : Env)
    → IsU32 p.ack_num
    → IsSound e.conn
    → IsSound (input p now e).conn
input-IsSound p now e u v =
    then_IsSound e (input p now e) v (input-Follows p now e) (input-Sending p now e u)
