-- ===== src/Stack/Ports/Search.antt =====
-- protocol/tcp/stack.go: the search for a free local port.
use halo.Base.{
  ℕ, true, false, zero, suc, ◌+◌, ◌-◌, ◌≡◌, ◌≤◌, ◌<◌, Option, none, some, if◌then◌else◌, ltb, arith,
  refl, pos, if_rule, ◌==◌, ap, sym, ◌∙◌,
}
use halo.Protocol.Utils.{Ipv4Addr}
use halo.Stack.Types.{Addr, Stack, addr_eq}
use halo.Stack.Ports.{port_free, port_after, choose_port, take_port}

-- A dynamic port.
abbrev pub IsDynamic : ℕ → Type 0
IsDynamic p = (49152 ≤ p) × (p < 65536)

abbrev pub at_port : Ipv4Addr → ℕ → Addr
at_port ip port = record { ip = ip; port = port }

-- The candidate `i` rounds later.
abbrev later : ℕ → ℕ → ℕ
later p i = if ltb (p + i) 65536 then p + i else p + i - 16384

later-suc : (p i : ℕ) → IsDynamic p → suc i < 16384 → later (port_after p) i ≡ later p (suc i)
later-suc p i d h = ground arith

port_after-IsDynamic : (p : ℕ) → IsDynamic p → IsDynamic (port_after p)
port_after-IsDynamic p d = ground arith

-- What the search leaves of the stack that it found.
pub record Reserves (ip : Ipv4Addr) (s t : Stack) (port : ℕ) : Type 0 where
  pub dynamic : IsDynamic port
  pub was_free : port_free (at_port ip port) s ≡ true
  pub ports : (a : Addr) → t.ports a ≡ (if addr_eq (at_port ip port) a then pos 1 else s.ports a)

abbrev Searched : ℕ → Ipv4Addr → Stack → Option ℕ × Stack → Type 0
Searched n ip s (none, t) = (i : ℕ) → i < n → port_free (at_port ip (later s.next_port i)) s ≡ false
Searched n ip s (some port, t) = Reserves ip s t port

abbrev advanced : Stack → Stack
advanced s = record s { next_port = port_after s.next_port }

Searched-next :
    (n : ℕ) (ip : Ipv4Addr) (s : Stack) (r : Option ℕ × Stack)
    → IsDynamic s.next_port
    → suc n ≤ 16384
    → port_free (at_port ip s.next_port) s ≡ false
    → Searched n ip (advanced s) r
    → Searched (suc n) ip s r
Searched-next n ip s (none, t) d h taken w = λ i k. go i k
  where
    go : (i : ℕ) → i < suc n → port_free (at_port ip (later s.next_port i)) s ≡ false
    go zero k = ap (λ p. port_free (at_port ip p) s) (ground arith) ∙ taken
    go (suc i) k =
        ap (λ p. port_free (at_port ip p) s) (sym (later-suc s.next_port i d (omega arith)))
        ∙ w i (omega arith)
Searched-next n ip s (some port, t) d h taken w = record {
  dynamic = w.dynamic;
  was_free = w.was_free;
  ports = w.ports;
}

choose_port-Searched :
    (n : ℕ) (ip : Ipv4Addr) (s : Stack)
    → IsDynamic s.next_port
    → n ≤ 16384
    → Searched n ip s (choose_port n ip s)
unfolding choose_port
choose_port-Searched zero ip s d h = λ i k. elim k [ ]
choose_port-Searched (suc n) ip s d h =
    if_rule (Searched (suc n) ip s) (port_free (at_port ip s.next_port) s)
      (λ free. record { dynamic = d; was_free = free; ports = λ a. refl })
      λ taken.
        Searched-next n ip s (choose_port n ip (advanced s)) d h taken (
          choose_port-Searched n ip (advanced s) (port_after-IsDynamic s.next_port d) (omega arith))

-- What the port of a local address without one becomes.
abbrev pub Chosen : Addr → Stack → Option ℕ × Stack → Type 0
Chosen local s (none, t) = (port : ℕ) → IsDynamic port → port_free (at_port local.ip port) s ≡ false
Chosen local s (some port, t) = Reserves local.ip s t port

later_onto : (p q : ℕ) → IsDynamic p → IsDynamic q → (i : ℕ) × (i < 16384) × (later p i ≡ q)
later_onto p q d e = (if ltb q p then q + 16384 - p else q - p, ground arith, ground arith)

chosen :
    (local : Addr) (s : Stack) (r : Option ℕ × Stack)
    → IsDynamic s.next_port
    → Searched 16384 local.ip s r
    → Chosen local s r
chosen local s (none, t) d w = λ port e.
    let (i, below, same) = later_onto s.next_port port d e in
    ap (λ q. port_free (at_port local.ip q) s) (sym same) ∙ w i below
chosen local s (some port, t) d w = w

-- With the next candidate among the dynamic ports 49152 to 65535, asking for port zero reserves one
-- of them that was free and leaves the counts of all other addresses, and it fails only if each
-- of them is taken on the address.
pub take_port-Chosen :
    (local : Addr) (s : Stack)
    → IsDynamic s.next_port
    → local.port ≡ 0
    → Chosen local s (take_port local s)
unfolding take_port
take_port-Chosen local s d h =
    if_rule (Chosen local s) (local.port == 0)
      (λ _.
        chosen local s (choose_port 16384 local.ip s) d
          (choose_port-Searched 16384 local.ip s d (omega arith)))
      (λ k. absurd (ground arith))
