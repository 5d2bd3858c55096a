-- ===== src/Engine/Nat/Consistent.antt =====
-- engine/ipv4_engine.go: the two NAT tables, the port sets and the flows belong together.
use halo.Engine.Nat.Flows.{Unchanged}
use halo.Engine.Nat.Create.{ports_of}
use halo.Base.{ℕ, true, ◌≡◌, ◌<◌, List, some, sym, ◌∙◌, arith, lookup, nat_key}
use halo.Engine.NatKey.{NatFlowHash, NatWanFlowHash, NatFlow, flow_key, wan_key}
use halo.Engine.Nat.{Nat, contains}
use halo.Engine.Nat.Clear.{wan_hash_of}

-- Each LAN key leads to a flow of that key, which its WAN key leads to as well.
abbrev pub Listed : Nat → NatFlowHash → ℕ → Type 0
Listed i k id =
    (f : NatFlow) × (i.flows id ≡ some f)
    × (f.nat_flow_hash ≡ k)
    × (lookup (wan_hash_of f) i.nat_wan_flow_table ≡ some id)
    × (id < i.next_flow)

-- Each WAN key leads to a flow of that key, which its LAN key leads to as well.
abbrev pub Reverse : Nat → NatWanFlowHash → ℕ → Type 0
Reverse i w id =
    (f : NatFlow) × (i.flows id ≡ some f)
    × (wan_hash_of f ≡ w)
    × (lookup f.nat_flow_hash i.nat_flow_table ≡ some id)
    × (id < i.next_flow)

-- A port is used by a flow that is listed.
abbrev pub Used : Nat → ℕ → ℕ → Type 0
Used i remote port =
    (w : NatWanFlowHash) × (id : ℕ) × (lookup w i.nat_wan_flow_table ≡ some id)
    × (w.remote_ip_addr ≡ remote)
    × (w.wan_port ≡ port)

abbrev pub held_ports : Nat → ℕ → List ℕ
held_ports i remote = ports_of (lookup remote i.nat_port_alloc)

-- The tables lead to the same flows, a remote address and a port belong to one flow, and the port
-- sets hold exactly the ports of the flows.
pub record IsConsistent (i : Nat) : Type 0 where
  pub lan : (k : NatFlowHash) (id : ℕ) → lookup k i.nat_flow_table ≡ some id → Listed i k id
  pub wan : (w : NatWanFlowHash) (id : ℕ) → lookup w i.nat_wan_flow_table ≡ some id → Reverse i w id
  pub reserved :
      (w : NatWanFlowHash) (id : ℕ)
      → lookup w i.nat_wan_flow_table ≡ some id
      → contains w.wan_port (held_ports i w.remote_ip_addr) ≡ true
  pub unique :
      (w x : NatWanFlowHash) (id jd : ℕ)
      → lookup w i.nat_wan_flow_table ≡ some id
      → lookup x i.nat_wan_flow_table ≡ some jd
      → w.remote_ip_addr ≡ x.remote_ip_addr
      → w.wan_port ≡ x.wan_port
      → w ≡ x
  pub used : (r p : ℕ) → contains p (held_ports i r) ≡ true → Used i r p

module _ (i j : Nat) (v : IsConsistent i) (u : Unchanged i j) where
  pub Unchanged-IsConsistent : IsConsistent j
  Unchanged-IsConsistent = record {
    lan = λ k id h.
        let (f, c, key, w, l) = v.lan k id (sym (u.lan k) ∙ h) in
        (f, u.cells id l ∙ c, key, u.wan (wan_hash_of f) ∙ w, omega (arith, u.later));
    wan = λ w id h.
        let (f, c, key, n, l) = v.wan w id (sym (u.wan w) ∙ h) in
        (f, u.cells id l ∙ c, key, u.lan f.nat_flow_hash ∙ n, omega (arith, u.later));
    reserved = λ w id h. rw (u.ports w.remote_ip_addr) (v.reserved w id (sym (u.wan w) ∙ h));
    unique = λ w x id jd h g. v.unique w x id jd (sym (u.wan w) ∙ h) (sym (u.wan x) ∙ g);
    used = λ r p h.
        let (w, id, l, a, b) = v.used r p (rw (u.ports r) at h) in (w, id, u.wan w ∙ l, a, b);
  }
