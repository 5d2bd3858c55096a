-- ===== src/Stack/Sender/Acks.antt =====
-- protocol/tcp/tcp.go: the acknowledgment of a segment and the send side of a connection.
use halo.Base.{
  ℕ, true, false, ◌+◌, ◌≡◌, inl, inr, arith, u32, IsU32, refl, none, Bool-cases, if_rule, not, ◌==◌,
  ◌&&◌, Result,
}
use halo.Protocol.Tcp.{TcpPkt}
use halo.Stack.Types.{Conn, TcpState, fin_wait1, fin_wait2, closing, last_ack, seq_less, can_send}
use halo.Stack.Emit.{Env}
use halo.Stack.Tick.{opening}
use halo.Stack.Acks.{take_ack, acked, fin_acked}
use halo.Stack.Segment.{returned}
use halo.Stack.Diagram.Stages.{fail_state}
use halo.Stack.Sender.{IsSending, IsSound, fin_gone, outstanding, acked_count}
use halo.Stack.Sender.Consumed.{acked-Consumed}

acked_una : (p : TcpPkt) (now : ℕ) (c : Conn) → (acked p now c).snd_una ≡ p.ack_num
unfolding acked
acked_una p now c = refl

module _ (p : TcpPkt) (now : ℕ) (c : Conn) (v : IsSending c) (range : IsU32 p.ack_num)
    (behind : seq_less c.snd_nxt p.ack_num ≡ false)
    (new : seq_less c.snd_una p.ack_num ≡ true) where
  pub acked-IsSending : can_send c.state ≡ true → IsSending (acked p now c)
  acked-IsSending h = ground (
    arith,
    acked_count c.snd_una c.snd_nxt p.ack_num (c.inflight + outstanding c.state) v.una range,
    acked-Consumed p now c v.ring v.queued,
    acked_una p now c,
  )

  -- The acknowledgment of the FIN is the only one that is new behind a FIN.
  pub acked_fin :
      fin_gone c.state ≡ true
      → (outstanding c.state ≡ 1)
        × ((acked p now c).fin_sent ≡ true)
        × (p.ack_num ≡ u32 ((acked p now c).fin_seq + 1))
        × (IsSending (record (acked p now c) { state = fin_wait2 }))
  acked_fin h = ground (
    arith,
    acked_count c.snd_una c.snd_nxt p.ack_num (c.inflight + outstanding c.state) v.una range,
    acked-Consumed p now c v.ring v.queued,
    acked_una p now c,
  )

fin_acked-IsSound :
    (now : ℕ) (s : TcpState) (e : Env)
    → outstanding s ≡ 1
    → fin_gone s ≡ true
    → IsSending (record e.conn { state = fin_wait2 })
    → IsSound (returned (fin_acked now s e)).conn
fin_acked-IsSound now fin_wait1 e o g v = inr v
fin_acked-IsSound now closing e o g v = inl refl
fin_acked-IsSound now last_ack e o g v = ground (arith, fail_state none false e)
fin_acked-IsSound now _ e o g v = absurd (ground arith)

pub take_ack-IsSound :
    (p : TcpPkt) (now : ℕ) (e : Env)
    → IsSending e.conn
    → opening e.conn ≡ false
    → IsU32 p.ack_num
    → seq_less e.conn.snd_nxt p.ack_num ≡ false
    → IsSound (returned (take_ack p now e)).conn
unfolding take_ack
take_ack-IsSound p now e v o range behind =
    let P = λ (r : Result Env Env). IsSound (returned r).conn in
    let d : Conn = acked p now e.conn in
    if_rule P (not (seq_less e.conn.snd_una p.ack_num)) (λ _. inr v)
      λ a.
        let new : seq_less e.conn.snd_una p.ack_num ≡ true = ground arith in
        let kept = (acked-Consumed p now e.conn v.ring v.queued).kept in
        if_rule P (d.fin_sent && p.ack_num == u32 (d.fin_seq + 1))
          (λ t.
            let gone : fin_gone e.conn.state ≡ true = ground (arith, kept) in
            let (o, _, _, w) = acked_fin p now e.conn v range behind new gone in
            fin_acked-IsSound now d.state (record e { conn = d }) (rw kept.state o)
              (rw kept.state gone) w)
          (λ t. elim (Bool-cases (fin_gone e.conn.state)) [
            | inl gone ↦
                let (_, sent, at, _) = acked_fin p now e.conn v range behind new gone in
                absurd (ground arith)
            | inr k ↦ ground (arith, kept, acked-IsSending p now e.conn v range behind new)
          ])
