-- ===== src/Engine/Nat/Added.antt =====
-- engine/ipv4_engine.go: a new flow keeps the NAT tables and the port sets together.
use mathlib.Core.Path.{subst}
use halo.Base.{
  ℕ, true, false, ◌≡◌, ◌<◌, ◌||◌, ◌⊎◌, inl, inr, none, some, ◌==◌, ==_iff, refl, sym, ap, ◌∙◌,
  arith, Bool-cases, some_inj, lookup, nat_key,
}
use halo.Engine.NatKey.{
  NatFlowHash, NatWanFlowHash, NatFlow, flow_key, wan_key, flow_key_eq, wan_key_eq, flow_key_eq_iff,
  wan_key_eq_iff,
}
use halo.Engine.Nat.{Nat, contains, new_wan_hash}
use halo.Engine.Nat.Clear.{wan_hash_of}
use halo.Engine.Nat.Create.{Established, port_taken-contains}
use halo.Engine.Nat.Consistent.{IsConsistent, Listed, Reverse, Used, held_ports}

module _ (i j : Nat) (key : NatFlowHash) (f : NatFlow) (v : IsConsistent i)
    (e : Established i key f j) (absent : lookup key i.nat_flow_table ≡ none) where
  abbrev new : NatWanFlowHash
  new = new_wan_hash i key f.wan_port

  new_hash : wan_hash_of f ≡ new
  new_hash = ap wan_hash_of e.made

  unheld : contains f.wan_port (held_ports i key.remote_ip_addr) ≡ false
  unheld =
      port_taken-contains i (held_ports i key.remote_ip_addr) key.ipv4_head_proto f.wan_port e.free

  -- No listed flow has the remote address and the port of the new one.
  apart :
      (w : NatWanFlowHash) (id : ℕ)
      → lookup w i.nat_wan_flow_table ≡ some id
      → w.remote_ip_addr ≡ key.remote_ip_addr
      → w.wan_port ≡ f.wan_port
      → ⊥
  apart w id h a b =
      let c : contains f.wan_port (held_ports i key.remote_ip_addr) ≡ true =
        subst (λ p. contains p (held_ports i key.remote_ip_addr) ≡ true) b
          (subst (λ r. contains w.wan_port (held_ports i r) ≡ true) a (v.reserved w id h)) in
      cc unheld

  new-apart :
      (w : NatWanFlowHash) (id : ℕ)
      → lookup w i.nat_wan_flow_table ≡ some id
      → wan_key_eq new w ≡ false
  new-apart w id h = elim (Bool-cases (wan_key_eq new w)) [
    | inr n ↦ n
    | inl y ↦
        let q : new ≡ w = (wan_key_eq_iff new w).0 y in
        absurd (apart w id h (ap (λ x. x.remote_ip_addr) (sym q)) (ap (λ x. x.wan_port) (sym q)))
  ]

  old_wan :
      (w : NatWanFlowHash) (id : ℕ)
      → lookup w i.nat_wan_flow_table ≡ some id
      → lookup w j.nat_wan_flow_table ≡ some id
  old_wan w id h = e.by_wan w ∙ rw (new-apart w id h) h

  old_lan :
      (k : NatFlowHash) (id : ℕ)
      → lookup k i.nat_flow_table ≡ some id
      → lookup k j.nat_flow_table ≡ some id
  old_lan k id h = e.by_lan k ∙ elim (Bool-cases (flow_key_eq key k)) [
    | inr n ↦ rw n h
    | inl y ↦
        let q : key ≡ k = (flow_key_eq_iff key k).0 y in
        absurd (cc (ap (λ x. lookup x i.nat_flow_table) q))
  ]

  new_lan : lookup key j.nat_flow_table ≡ some i.next_flow
  new_lan = e.by_lan key ∙ rw ((flow_key_eq_iff key key).1 refl) refl

  new_wan : lookup new j.nat_wan_flow_table ≡ some i.next_flow
  new_wan = e.by_wan new ∙ rw ((wan_key_eq_iff new new).1 refl) refl

  -- A WAN key of the new table is the new one, or was listed.
  wan_cases :
      (w : NatWanFlowHash) (id : ℕ)
      → lookup w j.nat_wan_flow_table ≡ some id
      → ((new ≡ w) × (i.next_flow ≡ id)) ⊎ (lookup w i.nat_wan_flow_table ≡ some id)
  wan_cases w id h = elim (Bool-cases (wan_key_eq new w)) [
    | inl y ↦ inl ((wan_key_eq_iff new w).0 y, some_inj (sym (e.by_wan w ∙ rw y refl) ∙ h))
    | inr n ↦ inr (sym (e.by_wan w ∙ rw n refl) ∙ h)
  ]

  new_listed : (f.nat_flow_hash ≡ key) × (wan_hash_of f ≡ new) × (i.next_flow < j.next_flow)
  new_listed = (ap (λ x. x.nat_flow_hash) e.made, new_hash, omega (arith, e.next))

  -- The set of the remote address has one port more, and the others are the same.
  ports_cases :
      (r p : ℕ)
      → (contains p (held_ports j r) ≡ true)
      → ((key.remote_ip_addr ≡ r) × (p ≡ f.wan_port)) ⊎ (contains p (held_ports i r) ≡ true)
  ports_cases r p h = elim (Bool-cases (key.remote_ip_addr == r)) [
    | inr n ↦ inr (rw (e.other_ports r n) at h)
    | inl y ↦
        let q : key.remote_ip_addr ≡ r = (==_iff _ r).0 y in
        let h' : contains p (held_ports j key.remote_ip_addr) ≡ true =
          subst (λ x. contains p (held_ports j x) ≡ true) (sym q) h in
        let g : (p == f.wan_port || contains p (held_ports i key.remote_ip_addr)) ≡ true =
          rw e.ports at h' in
        elim (Bool-cases (p == f.wan_port)) [
          | inl same ↦ inl (q, (==_iff _ _).0 same)
          | inr other ↦ inr (subst (λ x. contains p (held_ports i x) ≡ true) q (rw other at g))
        ]
  ]

  still_held : (r p : ℕ) → contains p (held_ports i r) ≡ true → contains p (held_ports j r) ≡ true
  still_held r p h = elim (Bool-cases (key.remote_ip_addr == r)) [
    | inr n ↦ rw (e.other_ports r n) h
    | inl y ↦
        subst (λ x. contains p (held_ports i x) ≡ true → contains p (held_ports j x) ≡ true)
          ((==_iff _ r).0 y) (λ g. rw e.ports (ground (arith, g))) h
  ]

  newly_held : contains f.wan_port (held_ports j key.remote_ip_addr) ≡ true
  newly_held = rw e.ports (ground arith)

  lan_part : (k : NatFlowHash) (id : ℕ) → lookup k j.nat_flow_table ≡ some id → Listed j k id
  lan_part k id h = elim (Bool-cases (flow_key_eq key k)) [
    | inl y ↦
        let q : key ≡ k = (flow_key_eq_iff key k).0 y in
        let n : i.next_flow ≡ id = some_inj (sym (e.by_lan k ∙ rw y refl) ∙ h) in
        let (a, b, l) = new_listed in
        subst (λ x. Listed j k x) n
          (f, e.cell, a ∙ q, ap (λ w. lookup w j.nat_wan_flow_table) b ∙ new_wan, l)
    | inr n ↦
        let (f', c, a, w, l) = v.lan k id (sym (e.by_lan k ∙ rw n refl) ∙ h) in
        (f', e.cells id l ∙ c, a, old_wan (wan_hash_of f') id w, omega (arith, e.next))
  ]

  wan_part :
      (w : NatWanFlowHash) (id : ℕ) → lookup w j.nat_wan_flow_table ≡ some id → Reverse j w id
  wan_part w id h = elim (wan_cases w id h) [
    | inl (q, n) ↦
        let (a, b, l) = new_listed in
        subst (λ x. Reverse j w x) n
          (f, e.cell, b ∙ q, ap (λ k. lookup k j.nat_flow_table) a ∙ new_lan, l)
    | inr o ↦
        let (f', c, a, k, l) = v.wan w id o in
        (f', e.cells id l ∙ c, a, old_lan f'.nat_flow_hash id k, omega (arith, e.next))
  ]

  reserved_part :
      (w : NatWanFlowHash) (id : ℕ)
      → lookup w j.nat_wan_flow_table ≡ some id
      → contains w.wan_port (held_ports j w.remote_ip_addr) ≡ true
  reserved_part w id h = elim (wan_cases w id h) [
    | inl (q, n) ↦
        subst (λ x. contains x.wan_port (held_ports j x.remote_ip_addr) ≡ true) q newly_held
    | inr o ↦ still_held w.remote_ip_addr w.wan_port (v.reserved w id o)
  ]

  unique_part :
      (w x : NatWanFlowHash) (id jd : ℕ)
      → lookup w j.nat_wan_flow_table ≡ some id
      → lookup x j.nat_wan_flow_table ≡ some jd
      → w.remote_ip_addr ≡ x.remote_ip_addr
      → w.wan_port ≡ x.wan_port
      → w ≡ x
  unique_part w x id jd h g a b = elim (wan_cases w id h) [
    | inl (q, n) ↦ elim (wan_cases x jd g) [
      | inl (q', n') ↦ sym q ∙ q'
      | inr o ↦ absurd (
          apart x jd o (sym a ∙ sym (ap (λ y. y.remote_ip_addr) q))
            (sym b ∙ sym (ap (λ y. y.wan_port) q)))
    ]
    | inr o ↦ elim (wan_cases x jd g) [
      | inl (q', n') ↦ absurd (
          apart w id o (a ∙ sym (ap (λ y. y.remote_ip_addr) q'))
            (b ∙ sym (ap (λ y. y.wan_port) q')))
      | inr o' ↦ v.unique w x id jd o o' a b
    ]
  ]

  ports_part : (r p : ℕ) → contains p (held_ports j r) ≡ true → Used j r p
  ports_part r p h = elim (ports_cases r p h) [
    | inl (q, n) ↦ (new, i.next_flow, new_wan, q, sym n)
    | inr o ↦ let (w, id, l, a, b) = v.used r p o in (w, id, old_wan w id l, a, b)
  ]

  pub Established-IsConsistent : IsConsistent j
  Established-IsConsistent = record {
    lan = lan_part;
    wan = wan_part;
    reserved = reserved_part;
    unique = unique_part;
    used = ports_part;
  }
