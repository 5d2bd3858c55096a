-- ===== src/Stack/Running.antt =====
-- protocol/tcp/stack.go: the rounds of `run`, which ticks and sends, and Close of the stack.
use halo.Base.{
  ℕ, Bool, true, false, List, [], ◌∷◌, Option, none, some, ◌==◌, ◌&&◌, ◌||◌, not, if◌then◌else◌,
}
use halo.Stack.Types.{
  Addr, ConnKey, Packet, Outbound, err_closed, Conn, Stack, seq_less, is_closed, addr_key, conn_key,
}
use halo.Stack.Emit.{release, in_cell, change_listener, fail}
use halo.Stack.Tick.{tick}
use halo.Stack.Listening.{shut}
use halo.Stack.Table.{on_conn}

-- A round of the ticker over the connections.
unfoldable pub tick_all : Bool → ℕ → List (ConnKey × ℕ) → Stack → Stack
tick_all check now [] s = s
tick_all check now ((key, id) ∷ rest) s = tick_all check now rest (on_conn check id (tick now) s)

-- What a tick of the clock does.
unfoldable pub tick_round : Bool → ℕ → Stack → Stack
unfolding tick_all
tick_round check now s = if s.closed then s else tick_all check now s.conns s

abbrev pub still_valid : Outbound → Option Conn → Bool
still_valid out none = true
still_valid out (some c) = not (is_closed c.state) && (not out.track || seq_less c.snd_una out.end)

abbrev pub conn_of : Outbound → Stack → Option Conn
conn_of out s = cell out.conn
  where
    cell : Option ℕ → Option Conn
    cell none = none
    cell (some id) = s.conn_cells id

abbrev pub keep_pending : Outbound → Option ℕ → Stack → Stack
keep_pending out none s = s
keep_pending out (some id) s = record s {
  conn_cells = λ n.
      if n == id
      then in_cell (λ c. record c { pending = some out }) (s.conn_cells n)
      else s.conn_cells n;
}

-- One segment of the sending loop, and whether it went out. `output` is the layer below. The code
-- gives the lock back while it calls `output`; here nothing else happens meanwhile.
unfoldable pub send_next : (Packet → Bool) → Stack → Option Packet × Stack
send_next output s = if s.closed then (none, s) else go s.tx
  where
    sent : Outbound → Stack → Option Packet × Stack
    sent out t =
        if not (still_valid out (conn_of out t))
        then (none, t)
        else if output out.packet
        then (some out.packet, t)
        else (none, if out.track then keep_pending out out.conn t else t)

    go : List Outbound → Option Packet × Stack
    go [] = (none, s)
    go (out ∷ rest) = sent out (record s { tx = rest })

-- The loop of Close over every connection.
unfoldable pub fail_all : Bool → List (ConnKey × ℕ) → Stack → Stack
fail_all check [] s = s
fail_all check ((key, id) ∷ rest) s =
    fail_all check rest (on_conn check id (fail (some err_closed) false) s)

unfoldable pub shut_all : List (Addr × ℕ) → Stack → Stack
shut_all [] s = s
shut_all ((a, n) ∷ rest) s = shut_all rest (release a (change_listener n shut s))

-- `Close` of a Stack, up to its wait for the background task.
unfoldable pub close_stack : Bool → Stack → Stack
unfolding fail_all shut_all
close_stack check s =
    if s.closed
    then s
    else let t = fail_all check s.conns (record s { closed = true }) in
      record (shut_all t.listeners t) { listeners = []; tx = [] }
