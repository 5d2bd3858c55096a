-- ===== src/Stack/Ports.antt =====
-- protocol/tcp/stack.go: the local ports in use, and the search for a free one that Dial and Listen
-- share.
pub mod Search
use halo.Base.{
  ℕ, Bool, true, false, zero, suc, ◌+◌, Option, none, some, ◌==◌, if◌then◌else◌, ltb, u16, ℤ, pos,
  negsuc,
}
use halo.Protocol.Utils.{Ipv4Addr}
use halo.Stack.Types.{Addr, Stack, addr_eq}

abbrev pub int_is_zero : ℤ → Bool
int_is_zero (pos zero) = true
int_is_zero (pos (suc n)) = false
int_is_zero (negsuc n) = false

-- Whether `reserve` takes the port.
abbrev pub port_free : Addr → Stack → Bool
port_free a s = int_is_zero (s.ports a)

abbrev pub reserved : Addr → Stack → Stack
reserved a s = record s { ports = λ b. if addr_eq a b then pos 1 else s.ports b }

-- `s.nextPort++`, back to the first dynamic port behind the last one.
abbrev pub port_after : ℕ → ℕ
port_after port = let next = u16 (port + 1) in if ltb next 49152 then 49152 else next

-- The loop over at most `rounds` candidates: the port that was reserved, if any, and the stack.
unfoldable pub choose_port : ℕ → Ipv4Addr → Stack → Option ℕ × Stack
choose_port zero ip s = (none, s)
choose_port (suc rounds) ip s =
    let a : Addr = record { ip = ip; port = s.next_port } in
    let t = record s { next_port = port_after s.next_port } in
    let rest = choose_port rounds ip t in
    if port_free a t then (some s.next_port, reserved a t) else rest

-- The port of a local address that a caller gives: port zero asks for a free one.
unfoldable pub take_port : Addr → Stack → Option ℕ × Stack
unfolding choose_port
take_port local s =
    if local.port == 0
    then choose_port 16384 local.ip s
    else if port_free local s
    then (some local.port, reserved local s)
    else (none, s)
