-- ===== src/Engine/Nat/Ports.antt =====
-- engine/ipv4_engine.go: the port search of NatAddFlow.
use halo.Base.{
  ℕ, Bool, zero, suc, true, false, ◌+◌, ◌≡◌, ◌≤◌, ◌<◌, ◌⊎◌, inl, inr, some, refl, arith, Bool-cases,
}
use native.Mathlib.Decide.{ℕ_discrete}
use mathlib.Core.Path.{subst, sym}
use halo.Engine.Nat.{find_port}

-- What a search after `port` finds: the first free port, or none if every later port is taken.
abbrev pub IsFirstFree : (ℕ → Bool) → ℕ → ℕ → Type 0
IsFirstFree taken port p =
    ((p ≡ 0) × ((q : ℕ) → port < q → q < 65536 → taken q ≡ true))
    ⊎ ((port < p) × (p < 65536) × (taken p ≡ false) × ((q : ℕ) → port < q → q < p → taken q ≡ true))

step_first :
    (taken : ℕ → Bool) (port p : ℕ)
    → taken (port + 1) ≡ true
    → IsFirstFree taken (port + 1) p
    → IsFirstFree taken port p
step_first taken port p t (inl (z, all)) = inl (z, more)
  where
    more : (q : ℕ) → port < q → q < 65536 → taken q ≡ true
    more q a b = elim (ℕ_discrete q (port + 1)) [
      | yes e ↦ subst (λ x. taken x ≡ true) (sym e) t
      | no n ↦ all q (omega arith) b
    ]
step_first taken port p t (inr (lo, hi, free, all)) = inr (omega arith, hi, free, more)
  where
    more : (q : ℕ) → port < q → q < p → taken q ≡ true
    more q a b = elim (ℕ_discrete q (port + 1)) [
      | yes e ↦ subst (λ x. taken x ≡ true) (sym e) t
      | no n ↦ all q (omega arith) b
    ]

-- From any uint16 on, fuel for the ports that are left suffices, and the loop finds the first free
-- port above it, or none.
pub find_port_first :
    (taken : ℕ → Bool) (fuel port : ℕ)
    → port < 65536
    → 65536 ≤ port + fuel
    → (p : ℕ) × (find_port taken fuel port ≡ some p) × IsFirstFree taken port p
unfolding find_port
find_port_first taken zero port h k = absurd (omega arith)
find_port_first taken (suc fuel) port h k = elim (ℕ_discrete port 65535) [
  | yes e ↦ (0, ground arith, inl (refl, λ q a b. absurd (omega arith)))
  | no n ↦ elim (Bool-cases (taken (port + 1))) [
    | inl t ↦
        let (p, e, first) = find_port_first taken fuel (port + 1) (omega arith) (omega arith) in
        (p, ground (arith, e), step_first taken port p t first)
    | inr f ↦
        (port + 1, ground arith, inr (omega arith, omega arith, f, λ q a b. absurd (omega arith)))
  ]
]
