-- ===== src/Engine/Nat/Flows.antt =====
-- engine/ipv4_engine.go: the end of NatAddFlow, from the free port on, on success and failure.
use halo.Base.{
  ℕ, false, ◌+◌, ◌≡◌, ◌<◌, ◌≤◌, ◌⊎◌, inl, inr, List, [], ◌∷◌, none, some, refl, arith, Bool-cases,
  Eq, nat_key, lookup, insert, erase, lookup-insert, lookup-erase,
}
use halo.Engine.NatKey.{NatFlowHash, NatWanFlowHash, NatFlow, flow_key, wan_key}
use halo.Engine.Nat.{
  Nat, Grants, commit_flow, new_flow, new_wan_hash, set_ports, write_flow, contains, remove,
}

-- No lookup tells the two states apart, and the flows that were there are the same.
pub record Unchanged (i j : Nat) : Type 0 where
  pub lan : (k : NatFlowHash) → lookup k j.nat_flow_table ≡ lookup k i.nat_flow_table
  pub wan : (k : NatWanFlowHash) → lookup k j.nat_wan_flow_table ≡ lookup k i.nat_wan_flow_table
  pub ports : (r : ℕ) → lookup r j.nat_port_alloc ≡ lookup r i.nat_port_alloc
  pub cells : (id : ℕ) → id < i.next_flow → j.flows id ≡ i.flows id
  pub later : i.next_flow ≤ j.next_flow

pub Unchanged-refl : (i : Nat) → Unchanged i i
Unchanged-refl i = record {
  lan = λ k. refl;
  wan = λ k. refl;
  ports = λ r. refl;
  cells = λ id h. refl;
  later = omega arith;
}

module _ {ℓ κ} {K : Type ℓ} {V : Type κ} ⦃eq : Eq K⦄ where
  -- Deleting a binding that was just made, of a key that had none, restores every lookup.
  lookup-erase-insert :
      (k j : K) (v : V) (m : List (K × V))
      → lookup k m ≡ none
      → lookup j (erase k (insert k v m)) ≡ lookup j m
  lookup-erase-insert k j v m h =
      ground (arith, lookup-erase k j (insert k v m), lookup-insert k j v m, eq.beq_iff k j)

  -- So does writing back the value that a key had.
  lookup-insert_back :
      (k j : K) (v w : V) (m : List (K × V))
      → lookup k m ≡ some w
      → lookup j (insert k w (insert k v m)) ≡ lookup j m
  lookup-insert_back k j v w m h =
      ground (arith, lookup-insert k j w (insert k v m), lookup-insert k j v m, eq.beq_iff k j)

remove_absent : (p : ℕ) (ports : List ℕ) → contains p ports ≡ false → remove p ports ≡ ports
remove_absent p [] h = refl
remove_absent p (q ∷ ports) h = ground (arith, remove_absent p ports)

remove_first : (p : ℕ) (ports : List ℕ) → contains p ports ≡ false → remove p (p ∷ ports) ≡ ports
remove_first p ports h = ground (arith, remove_absent p ports h)

module _ (i : Nat) (g : Grants) (key : NatFlowHash) (used : List ℕ) (port : ℕ) where
  abbrev pub remote : ℕ
  remote = key.remote_ip_addr

  abbrev pub flow : NatFlow
  flow = new_flow i key port

  -- The state after a flow was created.
  abbrev pub committed : Nat
  committed = record (set_ports i remote (port ∷ used)) {
    nat_flow_table = insert key i.next_flow i.nat_flow_table;
    nat_wan_flow_table = insert (new_wan_hash i key port) i.next_flow i.nat_wan_flow_table;
    flows = write_flow i.next_flow (some flow) i.flows;
    next_flow = i.next_flow + 1;
  }

  module _ (absent : lookup key i.nat_flow_table ≡ none)
      (held : lookup remote i.nat_port_alloc ≡ some used) (free : contains port used ≡ false) where
    released :
        (r : ℕ)
        → lookup r (
            insert remote
              (remove port (port ∷ used))
              (insert remote (port ∷ used) i.nat_port_alloc))
          ≡ lookup r i.nat_port_alloc
    released r =
        rw (remove_first port used free)
          (lookup-insert_back remote r (port ∷ used) used i.nat_port_alloc held)

    kept_cells :
        (id : ℕ)
        → id < i.next_flow
        → write_flow i.next_flow none (write_flow i.next_flow (some flow) i.flows) id ≡ i.flows id
    kept_cells id h = ground arith

    pub commit_flow_cases :
        (commit_flow i g key used port ≡ (some flow, committed))
        ⊎ (((commit_flow i g key used port).0 ≡ none)
            × Unchanged i (commit_flow i g key used port).1)
    unfolding commit_flow
    commit_flow_cases = elim (Bool-cases g.port_slot) [
      | inr e ↦ rw e (inr (refl, Unchanged-refl i))
      | inl e0 ↦ rw e0 (elim (Bool-cases g.flow) [
        | inr e ↦ rw e (
            inr (
              refl,
              record {
                lan = λ k. refl;
                wan = λ k. refl;
                ports = released;
                cells = λ id h. refl;
                later = omega arith;
              },
            ))
        | inl e1 ↦ rw e1 (elim (Bool-cases g.flow_slot) [
          | inr e ↦ rw e (
              inr (
                refl,
                record {
                  lan = λ k. refl;
                  wan = λ k. refl;
                  ports = released;
                  cells = kept_cells;
                  later = omega arith;
                },
              ))
          | inl e2 ↦ rw e2 (elim (Bool-cases g.wan_slot) [
            | inr e ↦ rw e (
                inr (
                  refl,
                  record {
                    lan = λ k. lookup-erase-insert key k i.next_flow i.nat_flow_table absent;
                    wan = λ k. refl;
                    ports = released;
                    cells = kept_cells;
                    later = omega arith;
                  },
                ))
            | inl e3 ↦ rw e3 (inl refl)
          ])
        ])
      ])
    ]
