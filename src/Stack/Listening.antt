-- ===== src/Stack/Listening.antt =====
-- protocol/tcp/stack.go and listener.go: Listen, Accept and Close of a listener.
use halo.Base.{
  ℕ, Bool, true, false, suc, List, [], ◌∷◌, Option, none, some, ◌==◌, ◌||◌, not, if◌then◌else◌, leb,
  length, ok, err, Result, insert, erase, pos,
}
use halo.Protocol.Utils.{Ipv4Addr}
use halo.Stack.Types.{
  Addr, ConnKey, ConnError, err_closed, Conn, Listener, Stack, max_connections, is_closed, addr_key,
  conn_key,
}
use halo.Stack.Emit.{release, in_cell, change_listener, fail}
use halo.Stack.Ports.{take_port}
use halo.Stack.Table.{
  StackError, invalid_local, stack_closed, listener_limit, no_port, unicast, on_conn,
}

abbrev pub new_listener : Addr → Listener
new_listener a = record { local = a; incomplete = pos 0; pending = []; event = 0; closed = false }

abbrev pub put_listener : ℕ → Listener → Stack → Stack
put_listener n l s = record s {
  listener_cells = λ k. if k == n then some l else s.listener_cells k;
}

abbrev pub listen_on : Ipv4Addr → Option ℕ × Stack → Result StackError ℕ × Stack
listen_on ip (none, s) = (err no_port, s)
listen_on ip (some port, s) =
    let a : Addr = record { ip = ip; port = port } in
    let id = s.next_cell in
    (
      ok id,
      record (put_listener id (new_listener a) s) {
        listeners = insert a id s.listeners;
        next_cell = suc id;
      },
    )

-- `Listen`
unfoldable pub listen : Addr → Stack → Result StackError ℕ × Stack
listen local s =
    if not (unicast local.ip)
    then (err invalid_local, s)
    else if s.closed
    then (err stack_closed, s)
    else if leb max_connections (length s.listeners)
    then (err listener_limit, s)
    else listen_on local.ip (take_port local s)

-- Whether Accept passes over a connection.
abbrev pub unusable : Option Conn → Bool
unusable none = true
unusable (some c) = is_failed c.error || is_closed c.state
  where
    is_failed : Option ConnError → Bool
    is_failed none = false
    is_failed (some x) = true

-- The first usable connection, and those behind it.
abbrev pub next_usable : Stack → List ℕ → Option ℕ × List ℕ
next_usable s [] = (none, [])
next_usable s (id ∷ ids) =
    let rest = next_usable s ids in if unusable (s.conn_cells id) then rest else (some id, ids)

pub data Accepted : Type 0 where
  accept_waits accept_closed : Accepted
  accepts : ℕ → Accepted

abbrev pub unlisten : ℕ → Stack → Stack
unlisten id s = record s {
  conn_cells = λ n.
      if n == id
      then in_cell (λ c. record c { listener = none }) (s.conn_cells n)
      else s.conn_cells n;
}

abbrev pub accept_next : ℕ → Listener → Option ℕ × List ℕ → Stack → Accepted × Stack
accept_next n l (none, ids) s = (accept_waits, put_listener n (record l { pending = ids }) s)
accept_next n l (some id, ids) s =
    (accepts id, unlisten id (put_listener n (record l { pending = ids }) s))

abbrev pub accept_cell : ℕ → Option Listener → Stack → Accepted × Stack
accept_cell n none s = (accept_closed, s)
accept_cell n (some l) s =
    if l.closed then (accept_closed, s) else accept_next n l (next_usable s l.pending) s

-- One round of `Accept`.
unfoldable pub accept : ℕ → Stack → Accepted × Stack
accept n s = accept_cell n (s.listener_cells n) s

abbrev pub belongs : ℕ → Option Conn → Bool
belongs l none = false
belongs l (some c) = same c.listener
  where
    same : Option ℕ → Bool
    same none = false
    same (some n) = n == l

-- The loop of Close over the connections, in the order of one range over the map.
unfoldable pub fail_children : Bool → ℕ → List (ConnKey × ℕ) → Stack → Stack
fail_children check l [] s = s
fail_children check l ((key, id) ∷ rest) s =
    fail_children check l rest
      (if belongs l (s.conn_cells id) then on_conn check id (fail (some err_closed) true) s else s)

abbrev pub shut : Listener → Listener
shut l = record l { closed = true; event = suc l.event }

abbrev pub close_cell : Bool → ℕ → Option Listener → Stack → Option ConnError × Stack
close_cell check n none s = (some err_closed, s)
close_cell check n (some l) s =
    if l.closed
    then (some err_closed, s)
    else let t = record (change_listener n shut s) { listeners = erase l.local s.listeners } in
      let u = fail_children check n s.conns t in
      (none, release l.local (change_listener n (λ m. record m { pending = [] }) u))

-- `Close` of a Listener
unfoldable pub close_listener : Bool → ℕ → Stack → Option ConnError × Stack
unfolding fail_children
close_listener check n s = close_cell check n (s.listener_cells n) s
