-- ===== src/Stack/Diagram/Segments.antt =====
-- protocol/tcp/tcp.go: `input` along the diagram.
use halo.Base.{ℕ, ◌≡◌, arith, inl, inr, ap, Option, List, Bool, true}
use halo.Protocol.Tcp.{TcpPkt}
use halo.Stack.Types.{is_syn_received, ConnError, Conn, TcpState}
use halo.Stack.Emit.{Env, emit, ack, fail}
use halo.Stack.Emit.Sent.{ack_conn, emit_state}
use halo.Stack.Admission.{establish, offset}
use halo.Stack.Acks.{update_window, take_ack}
use halo.Stack.Arrived.{receive_data}
use halo.Stack.Segment.{input, input_synchronized}
use halo.Stack.Segment.Cases.{returned-bind, input_cases, input_segment_cases}
use halo.Stack.Diagram.{Reach, here, Moves-Reach, Reach-trans}
use halo.Stack.Diagram.Stages.{
  take_ack-Moves, receive_data-Moves, receive_fin-Moves, answer-Moves, fail_state,
  input_syn_sent-Moves, input_time_wait-Moves,
}

-- The connection follows the diagram from one state of a method to another.
abbrev pub Follows : Env → Env → Type 0
Follows e f = Reach e.conn.state f.conn.state

pub Reach-from : {s t u : TcpState} → t ≡ s → Reach t u → Reach s u
Reach-from e r = rw (← e) r

update_window_state :
    (p : TcpPkt) (now : ℕ) (e : Env) → (update_window p now e.conn).state ≡ e.conn.state
update_window_state p now e = ground arith

input_synchronized-Reach : (p : TcpPkt) (now : ℕ) (e : Env) → Follows e (input_synchronized p now e)
unfolding input_synchronized
input_synchronized-Reach p now e =
    let f : Env = record e { conn = update_window p now e.conn } in
    returned-bind (Follows e) (take_ack p now f) _
      (Reach-from (update_window_state p now e) (Moves-Reach _ _ (take_ack-Moves p now f)))
      λ g _ a.
        returned-bind (Follows e) (receive_data p (offset p e.conn) g) _
          (Reach-trans a (Moves-Reach _ _ (receive_data-Moves p (offset p e.conn) g)))
          λ h _ b. Reach-trans b (
            Reach-trans (Moves-Reach _ _ (receive_fin-Moves p _ _ now h))
              (Moves-Reach _ _ (answer-Moves p now _)))

pub emit-Reach :
    (flags seq : ℕ) (bytes : List ℕ) (track : Bool) (e : Env)
    → Reach e.conn.state (emit flags seq bytes track e).conn.state
emit-Reach flags seq bytes track e =
    Moves-Reach _ _ (ground (arith, emit_state flags seq bytes track e))

pub ack-Reach : (e : Env) → Reach e.conn.state (ack e).conn.state
ack-Reach e = Reach-from (ap (λ (c : Conn). c.state) (ack_conn e)) here

pub fail-Reach :
    (x : Option ConnError) (wanted : Bool) (e : Env)
    → Reach e.conn.state (fail x wanted e).conn.state
fail-Reach x wanted e = Moves-Reach _ _ (inr (inl (fail_state x wanted e)))

establish-Reach :
    (p : TcpPkt) (e : Env)
    → is_syn_received e.conn.state ≡ true
    → Reach e.conn.state (establish p e).conn.state
establish-Reach p e h = Moves-Reach _ _ (ground arith)

pub input-Follows : (p : TcpPkt) (now : ℕ) (e : Env) → Follows e (input p now e)
input-Follows p now e =
    input_cases (Follows e) p now e (λ h. Moves-Reach _ _ (input_syn_sent-Moves p e (ground arith)))
      (λ _. emit-Reach _ _ _ _ e) (λ _. Moves-Reach _ _ (input_time_wait-Moves p now e))
      (ack-Reach e)
      (λ _ _.
        input_segment_cases (Follows e) p now e (fail-Reach _ _ e) (ack-Reach e) here
          (λ _ h _ _.
            Reach-trans (establish-Reach p e h) (input_synchronized-Reach p now (establish p e)))
          (λ _ _. input_synchronized-Reach p now e))
