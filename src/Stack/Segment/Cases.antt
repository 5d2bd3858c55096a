-- ===== src/Stack/Segment/Cases.antt =====
-- protocol/tcp/tcp.go: the branches of `input`, for a property of the connection that it leaves.
use halo.Base.{
  ℕ, true, false, ◌≡◌, ◌==◌, ◌&&◌, ◌||◌, not, if_rule, some, Result, ok, err, ◌>>=◌, [], ◌+◌,
}
use halo.Protocol.Tcp.{TcpPkt, has_syn}
use halo.Stack.Types.{
  connection_reset, is_syn_sent, is_syn_received, is_time_wait, has_rst, has_ack, seq_less,
  tcp_flags_ack,
}
use halo.Stack.Emit.{Env, emit, ack, fail}
use halo.Stack.Admission.{establish, acceptable}
use halo.Stack.Segment.{
  returned, input, input_segment, input_synchronized, input_syn_sent, input_time_wait, repeated_syn,
  repeated_syn_ack,
}
use halo.Base.{arith, refl}

-- A part of `input` that may return early, with a property of its own, followed by the rest.
pub returned-then :
    (Q P : Env → Type 0) (r : Result Env Env) (f : Env → Result Env Env)
    → Q (returned r)
    → ((g : Env) → Q g → P g)
    → ((g : Env) → Q g → P (returned (f g)))
    → P (returned (r >>= f))
returned-then Q P (ok g) f q early rest = rest g q
returned-then Q P (err g) f q early rest = early g q

module _ (P : Env → Type 0) where
  -- A part of `input` that may return early, followed by the rest.
  pub returned-bind :
      (r : Result Env Env) (f : Env → Result Env Env)
      → P (returned r)
      → ((g : Env) → r ≡ ok g → P g → P (returned (f g)))
      → P (returned (r >>= f))
  returned-bind (ok g) f h k = k g refl h
  returned-bind (err g) f h k = h

  module _ (p : TcpPkt) (now : ℕ) (e : Env) where
    -- What reaches the acknowledgment of a segment.
    pub record Admitted : Type 0 where
      pub no_reset : has_rst p.flags ≡ false
      pub in_window : acceptable p e.conn ≡ true
      pub no_syn : has_syn p.flags ≡ false
      pub acks : has_ack p.flags ≡ true
      pub not_ahead : seq_less e.conn.snd_nxt p.ack_num ≡ false

    pub input_segment_cases :
        P (fail (some connection_reset) false e)
        → P (ack e)
        → P e
        → (Admitted
            → is_syn_received e.conn.state ≡ true
            → p.ack_num ≡ e.conn.snd_nxt
            → p.seq_num ≡ e.conn.rcv_nxt
            → P (input_synchronized p now (establish p e)))
        → (Admitted → is_syn_received e.conn.state ≡ false → P (input_synchronized p now e))
        → P (input_segment p now e)
    unfolding input_segment
    input_segment_cases failed acked same opened synchronized =
        if_rule P (has_rst p.flags)
          (λ _.
            if_rule P (p.seq_num == e.conn.rcv_nxt) (λ _. failed)
              (λ _. if_rule P (acceptable p e.conn) (λ _. acked) (λ _. same)))
          λ a.
            if_rule P (not (acceptable p e.conn) || has_syn p.flags) (λ _. acked)
              λ b.
                if_rule P (not (has_ack p.flags)) (λ _. same)
                  λ c.
                    if_rule P (seq_less e.conn.snd_nxt p.ack_num) (λ _. acked)
                      λ d.
                        let admitted : Admitted = ground arith in
                        if_rule P (is_syn_received e.conn.state)
                          (λ h.
                            if_rule P
                              (not (p.ack_num == e.conn.snd_nxt)
                                || not (p.seq_num == e.conn.rcv_nxt))
                              (λ _. same) (λ k. opened admitted h (ground arith) (ground arith)))
                          (λ h. synchronized admitted h)

    pub input_cases :
        (is_syn_sent e.conn.state ≡ true → P (input_syn_sent p e))
        → (is_syn_received e.conn.state ≡ true → P (emit (2 + tcp_flags_ack) e.conn.iss [] true e))
        → (is_time_wait e.conn.state ≡ true → P (input_time_wait p now e))
        → P (ack e)
        → (is_syn_sent e.conn.state ≡ false
            → is_time_wait e.conn.state ≡ false
            → P (input_segment p now e))
        → P (input p now e)
    unfolding input
    input_cases opening repeated ending acked segment =
        if_rule P (is_syn_sent e.conn.state) opening λ a.
          if_rule P (is_syn_received e.conn.state && repeated_syn p e.conn)
            (λ b. repeated (ground arith))
            λ _.
              if_rule P (is_time_wait e.conn.state) ending
                λ c. if_rule P (repeated_syn_ack p e.conn) (λ _. acked) (λ _. segment a c)
