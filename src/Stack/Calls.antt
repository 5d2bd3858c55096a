-- ===== src/Stack/Calls.antt =====
-- protocol/tcp/conn.go: the methods of Conn. A method that waits is one round of its loop, from
-- taking the lock to giving it back: what it returns, or that it waits for the next event. The time
-- of the call is an argument, and the mutexes keep a second reader or writer out.
use halo.Base.{
  ℕ, Bool, true, ◌+◌, List, Option, none, some, ◌==◌, ◌&&◌, ◌||◌, not, if◌then◌else◌, ltb, leb,
  length, drop,
}
use halo.Stack.Buffer.{write, read}
use halo.Stack.Types.{ConnError, err_closed, Conn, close_timeout, is_closed, is_time_wait, can_send}
use halo.Stack.Emit.{Env, notify, fail, ack}
use halo.Stack.Pump.{pump}

-- net.ErrClosed, os.ErrDeadlineExceeded, io.EOF, and what `err` holds.
pub data IoError : Type 0 where
  net_closed deadline_exceeded eof : IoError
  conn_error : ConnError → IoError

-- `waits n` is a round that ended with waiting, with `n` bytes done.
pub data Round : Type 0 where
  waits : ℕ → Round
  returns : ℕ → Option IoError → Round

-- `!t.IsZero() && !now.Before(t)`
abbrev pub expired : ℕ → ℕ → Bool
expired now t = not (t == 0) && leb t now

abbrev pub with_error : Option ConnError → Round → ℕ → Round
with_error none r n = r
with_error (some x) r n = returns n (some (conn_error x))

-- What Read does once no byte is there.
abbrev pub read_empty : Conn → Round
read_empty c =
    with_error c.error
      (if c.recv_fin
        then returns 0 (some eof)
        else if is_closed c.state
        then returns 0 (some net_closed)
        else waits 0)
      0

-- Reading more than nothing opens the window, which an ACK tells.
abbrev pub read_bytes : List ℕ → Env → Round × List ℕ × Env
read_bytes p e =
    let (n, out, rx) = read e.conn.rx p in
    let f = record e { conn = record e.conn { rx = rx } } in
    (
      returns n none,
      out,
      (if not (is_closed e.conn.state) && not (is_time_wait e.conn.state) then ack f else f),
    )

-- The caller's slice `p` after the round is returned as well.
unfoldable pub read_round : ℕ → List ℕ → Env → Round × List ℕ × Env
read_round now p e =
    if e.conn.app_closed
    then (returns 0 (some net_closed), p, e)
    else if expired now e.conn.rd
    then (returns 0 (some deadline_exceeded), p, e)
    else if length p == 0
    then (returns 0 none, p, e)
    else if ltb 0 e.conn.rx.size
    then read_bytes p e
    else (read_empty e.conn, p, e)

-- The connection with more of `p`, of which `n` bytes were written in earlier rounds. The user
-- timeout starts with the first byte in the queue.
abbrev pub enqueued : ℕ → List ℕ → ℕ → Conn → Conn
enqueued now p n c = record c {
  progress = if c.tx.size == 0 then now else c.progress;
  tx = (write c.tx (drop n p)).1;
}

abbrev pub write_some : ℕ → List ℕ → ℕ → Env → Round × Env
write_some now p n e =
    let k = (write e.conn.tx (drop n p)).0 in
    (
      (if n + k == length p then returns (n + k) none else waits (n + k)),
      pump now (record e { conn = enqueued now p n e.conn }),
    )

abbrev pub write_open : ℕ → List ℕ → ℕ → Env → Round × Env
write_open now p n e =
    if not (can_send e.conn.state)
    then (returns n (some net_closed), e)
    else if expired now e.conn.wd
    then (returns n (some deadline_exceeded), e)
    else if n == length p
    then (returns n none, e)
    else write_some now p n e

abbrev pub write_checked : Option ConnError → ℕ → List ℕ → ℕ → Env → Round × Env
write_checked (some x) now p n e = (returns n (some (conn_error x)), e)
write_checked none now p n e = write_open now p n e

unfoldable pub write_round : ℕ → List ℕ → ℕ → Env → Round × Env
write_round now p n e =
    if e.conn.app_closed || e.conn.write_closed
    then (returns n (some net_closed), e)
    else write_checked e.conn.error now p n e

abbrev pub half_closed : ℕ → Conn → Conn
half_closed now c = notify (record c { write_closed = true; close_end = now + close_timeout })

-- `CloseWrite`
unfoldable pub shut_write : ℕ → Env → Option IoError × Env
shut_write now e =
    if e.conn.app_closed || is_closed e.conn.state
    then (some net_closed, e)
    else if e.conn.write_closed
    then (none, e)
    else (none, pump now (record e { conn = half_closed now e.conn }))

abbrev pub app_shut : Conn → Conn
app_shut c = notify (record c { app_closed = true; write_closed = true })

abbrev pub lingering : ℕ → Conn → Conn
lingering now c = record c { close_end = now + close_timeout }

-- `Close`
unfoldable pub close_conn : ℕ → Env → Option IoError × Env
close_conn now e =
    let f = record e { conn = app_shut e.conn } in
    if e.conn.app_closed
    then (some net_closed, e)
    else if not (e.conn.rx.size == 0)
    then (none, fail (some err_closed) true f)
    else if not (is_closed e.conn.state) && not (is_time_wait e.conn.state)
    then (none, pump now (record f { conn = lingering now f.conn }))
    else (none, f)

-- `SetDeadline`, `SetReadDeadline` and `SetWriteDeadline` set the ones given.
unfoldable pub set_deadlines : Option ℕ → Option ℕ → Env → Option IoError × Env
set_deadlines rd wd e =
    if e.conn.app_closed || is_closed e.conn.state then (some net_closed, e) else (
      none,
      record e {
        conn = notify (record e.conn { rd = given rd e.conn.rd; wd = given wd e.conn.wd });
      },
    )
  where
    given : Option ℕ → ℕ → ℕ
    given none old = old
    given (some t) old = t
