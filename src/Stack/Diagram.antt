-- ===== src/Stack/Diagram.antt =====
-- protocol/tcp: the diagram of RFC 793 that the states of a connection in tcp.go follow, without a
-- simultaneous open.
pub mod Stages
pub mod Segments
pub mod Rounds
use halo.Base.{Bool, true, false, ◌≡◌, ◌⊎◌, inl, inr, arith}
use halo.Stack.Types.{
  TcpState, closed, syn_sent, syn_received, established, fin_wait1, fin_wait2, close_wait, closing,
  last_ack, time_wait,
}

pub data Edge : TcpState → TcpState → Type 0 where
  syn_acked : Edge syn_sent established
  handshake_acked : Edge syn_received established
  close_first : Edge established fin_wait1
  fin_came : Edge established close_wait
  close_second : Edge close_wait last_ack
  own_fin_acked : Edge fin_wait1 fin_wait2
  fin_crossed : Edge fin_wait1 closing
  last_fin_came : Edge fin_wait2 time_wait
  crossed_fin_acked : Edge closing time_wait
  gives_up : (s : TcpState) → Edge s closed

-- The states that edges lead to.
pub data Reach (s : TcpState) : TcpState → Type 0 where
  here : Reach s s
  next : {t u : TcpState} → Reach s t → Edge t u → Reach s u

pub Reach-trans : {s t u : TcpState} → Reach s t → Reach t u → Reach s u
Reach-trans r here = r
Reach-trans r (next q e) = next (Reach-trans r q) e

-- The edges but for the last, as a test.
abbrev pub edge : TcpState → TcpState → Bool
edge syn_sent established = true
edge syn_received established = true
edge established fin_wait1 = true
edge established close_wait = true
edge close_wait last_ack = true
edge fin_wait1 fin_wait2 = true
edge fin_wait1 closing = true
edge fin_wait2 time_wait = true
edge closing time_wait = true
edge _ _ = false

-- One edge at most.
abbrev pub Moves : TcpState → TcpState → Type 0
Moves s t = (t ≡ s) ⊎ ((t ≡ closed) ⊎ (edge s t ≡ true))

edge-Edge : (s t : TcpState) → edge s t ≡ true → Edge s t
edge-Edge syn_sent established h = syn_acked
edge-Edge syn_received established h = handshake_acked
edge-Edge established fin_wait1 h = close_first
edge-Edge established close_wait h = fin_came
edge-Edge close_wait last_ack h = close_second
edge-Edge fin_wait1 fin_wait2 h = own_fin_acked
edge-Edge fin_wait1 closing h = fin_crossed
edge-Edge fin_wait2 time_wait h = last_fin_came
edge-Edge closing time_wait h = crossed_fin_acked
edge-Edge _ _ h = cc

pub Moves-Reach : (s t : TcpState) → Moves s t → Reach s t
Moves-Reach s t (inl e) = rw e here
Moves-Reach s t (inr (inl e)) = rw e (next here (gives_up s))
Moves-Reach s t (inr (inr e)) = next here (edge-Edge s t e)
