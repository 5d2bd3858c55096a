-- ===== src/Stack/Sender.antt =====
-- protocol/tcp/tcp.go: the send side of a connection: what its ring holds, what of it is in flight,
-- and the sequence numbers that stand for it.
pub mod Consumed
pub mod Stages
pub mod Acks
pub mod Segments
pub mod Rounds
use halo.Base.{ℕ, Bool, true, false, ◌+◌, ◌-◌, ◌≡◌, ◌≤◌, ◌<◌, ◌^◌, ◌⊎◌, length, arith, u32, IsU32}
use halo.Stack.Types.{
  TcpState, closed, syn_sent, syn_received, fin_wait1, fin_wait2, closing, last_ack, time_wait,
  Conn, mss, send_buffer_size, seq_less, sub32, can_send,
}
use halo.Stack.Buffer.Queue.{IsRing}

-- The sequence number of a SYN or a FIN that is not acknowledged.
abbrev pub outstanding : TcpState → ℕ
outstanding syn_sent = 1
outstanding syn_received = 1
outstanding fin_wait1 = 1
outstanding closing = 1
outstanding last_ack = 1
outstanding _ = 0

-- The states in which nothing is sent again.
abbrev pub is_over : TcpState → Bool
is_over closed = true
is_over time_wait = true
is_over _ = false

abbrev pub fin_gone : TcpState → Bool
fin_gone fin_wait1 = true
fin_gone fin_wait2 = true
fin_gone closing = true
fin_gone last_ack = true
fin_gone _ = false

-- What is not acknowledged are the bytes in flight, which are the first of the queue, and then the
-- SYN or the FIN.
pub record IsSending (c : Conn) : Type 0 where
  pub una : IsU32 c.snd_una
  pub nxt : c.snd_nxt ≡ u32 (c.snd_una + c.inflight + outstanding c.state)
  pub ring : IsRing c.tx
  pub capacity : length c.tx.bytes ≡ send_buffer_size
  pub queued : c.inflight ≤ c.tx.size
  pub few : c.inflight ≤ mss
  pub idle : (can_send c.state ≡ true) ⊎ (c.tx.size ≡ 0)
  pub fin : c.fin_sent ≡ fin_gone c.state
  pub fin_at : (fin_gone c.state ≡ false) ⊎ (c.snd_nxt ≡ u32 (c.fin_seq + 1))

abbrev pub IsSound : Conn → Type 0
IsSound c = (is_over c.state ≡ true) ⊎ IsSending c

-- An acknowledgment that is new and not ahead is one of the sequence numbers in flight.
pub acked_count :
    (una nxt ack o : ℕ)
    → una < 2 ^ 32
    → ack < 2 ^ 32
    → nxt ≡ u32 (una + o)
    → o ≤ 2 ^ 16
    → seq_less nxt ack ≡ false
    → seq_less una ack ≡ true
    → (0 < sub32 ack una) × (sub32 ack una ≤ o) × (nxt ≡ u32 (ack + (o - sub32 ack una)))
acked_count una nxt ack o a b c d e f = ground arith
