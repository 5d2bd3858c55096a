-- ===== src/Engine/Nat/Create.antt =====
-- engine/ipv4_engine.go: NatAddFlow as a whole, for a key that has no flow.
use halo.Base.{
  ◌+◌, ◌&&◌, ==_refl, ℕ, zero, suc, true, false, ◌≡◌, ◌≤◌, ◌<◌, ◌⊎◌, inl, inr, List, [], ◌∷◌,
  Option, none, some, ◌==◌, ◌||◌, ==_iff, if◌then◌else◌, refl, sym, ap, ◌∙◌, arith, Bool-cases,
  Option-cases, nat_key, lookup, lookup-insert, lookup-erase,
}
use mathlib.Core.Path.{subst}
use halo.Engine.NatKey.{
  NatFlowHash, NatWanFlowHash, NatFlow, flow_key, wan_key, flow_key_eq, wan_key_eq,
}
use halo.Engine.Nat.{
  Nat, Grants, new_flow, new_wan_hash, set_ports, contains, settle, with_port_set, allocate_flow,
  commit_found, port_taken, flow_hash, nat_add_flow,
}
use halo.Engine.Nat.Ports.{IsFirstFree, find_port_first}
use halo.Engine.Nat.Flows.{Unchanged, Unchanged-refl, committed, commit_flow_cases}
use halo.Engine.Nat.{check_nat_port_mapping}
use halo.Engine.Nat.{nat_get_flow_by_wan}
use halo.Engine.Nat.{nat_get_flow_by_hash}
use halo.Base.{beq_refl, some_inj}
use halo.Engine.Nat.{touch, wan_hash}

abbrev pub ports_of : Option (List ℕ) → List ℕ
ports_of none = []
ports_of (some used) = used

-- A flow was created: it has a dynamic port that was free, both tables lead to it, every other
-- key leads where it did, its port is recorded and no other, and the old flows are the same.
pub record Established (i : Nat) (key : NatFlowHash) (f : NatFlow) (j : Nat) : Type 0 where
  pub low : 32768 ≤ f.wan_port
  pub high : f.wan_port < 65536
  pub free :
      port_taken i
        (ports_of (lookup key.remote_ip_addr i.nat_port_alloc))
        key.ipv4_head_proto
        f.wan_port
      ≡ false
  pub made : f ≡ new_flow i key f.wan_port
  pub by_lan :
      (k : NatFlowHash)
      → lookup k j.nat_flow_table
        ≡ (if flow_key_eq key k then some i.next_flow else lookup k i.nat_flow_table)
  pub by_wan :
      (k : NatWanFlowHash)
      → lookup k j.nat_wan_flow_table ≡ (
          if wan_key_eq (new_wan_hash i key f.wan_port) k
          then some i.next_flow
          else lookup k i.nat_wan_flow_table)
  pub cell : j.flows i.next_flow ≡ some f
  pub cells : (id : ℕ) → id < i.next_flow → j.flows id ≡ i.flows id
  pub next : j.next_flow ≡ i.next_flow + 1
  pub ports :
      lookup key.remote_ip_addr j.nat_port_alloc
      ≡ some (f.wan_port ∷ ports_of (lookup key.remote_ip_addr i.nat_port_alloc))
  pub other_ports :
      (r : ℕ)
      → (key.remote_ip_addr == r) ≡ false
      → lookup r j.nat_port_alloc ≡ lookup r i.nat_port_alloc
  pub same_mapping : j.nat_port_mapping_table ≡ i.nat_port_mapping_table
  pub same_type : j.nat_type ≡ i.nat_type
  pub same_time : j.time_now ≡ i.time_now

-- The two outcomes.
abbrev pub Outcome : Nat → NatFlowHash → Option NatFlow × Nat → Type 0
Outcome i key r =
    ((f : NatFlow) × (r.0 ≡ some f) × Established i key f r.1) ⊎ ((r.0 ≡ none) × Unchanged i r.1)

pub port_taken-contains :
    (i : Nat) (used : List ℕ) (proto port : ℕ)
    → port_taken i used proto port ≡ false
    → contains port used ≡ false
unfolding port_taken
port_taken-contains i used proto port h = ground arith

module _ (i : Nat) (g : Grants) (key : NatFlowHash) (used : List ℕ)
    (absent : lookup key i.nat_flow_table ≡ none)
    (held : lookup key.remote_ip_addr i.nat_port_alloc ≡ some used) where
  committed-Established :
      (port : ℕ)
      → 32768 ≤ port
      → port < 65536
      → port_taken i used key.ipv4_head_proto port ≡ false
      → Established i key (new_flow i key port) (committed i g key used port)
  committed-Established port lo hi free = record {
    low = lo;
    high = hi;
    free = rw held free;
    made = refl;
    by_lan = λ k. lookup-insert key k i.next_flow i.nat_flow_table;
    by_wan = λ k. lookup-insert (new_wan_hash i key port) k i.next_flow i.nat_wan_flow_table;
    cell = ground arith;
    cells = λ id h. ground arith;
    next = refl;
    other_ports =
        λ r h. lookup-insert key.remote_ip_addr r (port ∷ used) i.nat_port_alloc ∙ rw h refl;
    ports =
        lookup-insert key.remote_ip_addr key.remote_ip_addr (port ∷ used) i.nat_port_alloc
        ∙ rw (==_refl key.remote_ip_addr, held) refl;
    same_mapping = refl;
    same_type = refl;
    same_time = refl;
  }

  allocate_flow-Outcome : Outcome i key (allocate_flow i g key used)
  unfolding allocate_flow
  allocate_flow-Outcome =
      let (p, found, first) =
        find_port_first (port_taken i used key.ipv4_head_proto) 32769 32767 (omega arith)
          (omega arith) in
      rw found (by_port p first)
    where
      by_port :
          (p : ℕ)
          → IsFirstFree (port_taken i used key.ipv4_head_proto) 32767 p
          → Outcome i key (commit_found i g key used (some p))
      by_port zero first = inr (refl, Unchanged-refl i)
      by_port (suc p) (inl (z, all)) = absurd (omega arith)
      by_port (suc p) (inr (lo, hi, free, all)) =
          elim (commit_flow_cases i g key used (suc p) absent held
            (port_taken-contains i used key.ipv4_head_proto (suc p) free)) [
              | inl e ↦ inl (
                new_flow i key (suc p),
                ap (λ r. r.0) e,
                subst (λ r. Established i key (new_flow i key (suc p)) r.1) (sym e)
                    (committed-Established (suc p) lo hi free),
              )
              | inr e ↦ inr e
            ]

module _ (i : Nat) (g : Grants) (key : NatFlowHash) (absent : lookup key i.nat_flow_table ≡ none)
    (no_set : lookup key.remote_ip_addr i.nat_port_alloc ≡ none) where
  abbrev with_set : Nat
  with_set = set_ports i key.remote_ip_addr []

  empty_set : lookup key.remote_ip_addr with_set.nat_port_alloc ≡ some []
  empty_set =
      lookup-insert key.remote_ip_addr key.remote_ip_addr [] i.nat_port_alloc
      ∙ rw (==_refl key.remote_ip_addr) refl

  settle_success :
      (f : NatFlow) (j : Nat)
      → Established with_set key f j
      → Established i key f (settle true key.remote_ip_addr j)
  unfolding port_taken check_nat_port_mapping
  settle_success f j e =
      let one : lookup key.remote_ip_addr j.nat_port_alloc ≡ some (f.wan_port ∷ []) =
        e.ports ∙ ap (λ o. some (f.wan_port ∷ ports_of o)) empty_set in
      rw one (record {
        low = e.low;
        high = e.high;
        free = rw no_set (rw empty_set at e.free);
        made = e.made;
        by_lan = e.by_lan;
        by_wan = e.by_wan;
        cell = e.cell;
        cells = e.cells;
        next = e.next;
        other_ports = λ r h.
            e.other_ports r h ∙ lookup-insert key.remote_ip_addr r [] i.nat_port_alloc ∙ rw h refl;
        ports = one ∙ ap (λ o. some (f.wan_port ∷ ports_of o)) (sym no_set);
        same_mapping = e.same_mapping;
        same_type = e.same_type;
        same_time = e.same_time;
      })

  settle_failure : (j : Nat) → Unchanged with_set j → Unchanged i (settle true key.remote_ip_addr j)
  settle_failure j u = rw (u.ports key.remote_ip_addr ∙ empty_set) (record {
    lan = u.lan;
    wan = u.wan;
    ports = λ r.
        lookup-erase key.remote_ip_addr r j.nat_port_alloc
        ∙ ap (λ o. if key.remote_ip_addr == r then none else o)
            (u.ports r ∙ lookup-insert key.remote_ip_addr r [] i.nat_port_alloc)
        ∙ restored r;
    cells = u.cells;
    later = u.later;
  })
    where
      restored :
          (r : ℕ)
          → (if key.remote_ip_addr == r
              then none
              else if key.remote_ip_addr == r
              then some []
              else lookup r i.nat_port_alloc)
            ≡ lookup r i.nat_port_alloc
      restored r = elim (Bool-cases (key.remote_ip_addr == r)) [
        | inl e ↦ rw e (sym no_set ∙ ap (λ x. lookup x i.nat_port_alloc) ((==_iff _ r).0 e))
        | inr e ↦ rw e refl
      ]

  made_set-Outcome : Outcome i key (with_port_set i g key none)
  made_set-Outcome = elim (Bool-cases (g.port_alloc && (g.port_map && g.port_alloc_slot))) [
    | inr e ↦ rw e (inr (refl, Unchanged-refl i))
    | inl e ↦ rw e (elim (allocate_flow-Outcome with_set g key [] absent empty_set) [
      | inl (f, is_f, est) ↦ inl (f, is_f, settle_success f _ est)
      | inr (is_none, u) ↦ inr (is_none, settle_failure _ u)
    ])
  ]

-- For a LAN endpoint and remote that have no flow yet, NatAddFlow either creates one, on a dynamic
-- port that was free for it and with both tables leading to it, or reports a failure after which no
-- table lookup has changed, whatever allocation failed.
pub nat_add_flow-Outcome :
    (i : Nat) (g : Grants) (lan_ip remote_ip lan_port remote_port proto : ℕ)
    → lookup (flow_hash i remote_ip remote_port lan_ip lan_port proto) i.nat_flow_table ≡ none
    → Outcome i
        (flow_hash i remote_ip remote_port lan_ip lan_port proto)
        (nat_add_flow i g lan_ip remote_ip lan_port remote_port proto)
unfolding nat_add_flow
nat_add_flow-Outcome i g lan_ip remote_ip lan_port remote_port proto absent =
    let key = flow_hash i remote_ip remote_port lan_ip lan_port proto in
    elim (Bool-cases (lan_port == 0 || remote_port == 0)) [
      | inl e ↦ rw e (inr (refl, Unchanged-refl i))
      | inr e ↦
          rw (e, absent)
            (elim (Option-cases (lookup key.remote_ip_addr i.nat_port_alloc)) [
              | inl n ↦ rw n (made_set-Outcome i g key absent n)
              | inr (used, s) ↦ rw s (allocate_flow-Outcome i g key used absent s)
            ])
    ]

module _ (i j : Nat) (remote_ip remote_port lan_ip lan_port proto : ℕ) (f : NatFlow)
    (est : Established i (flow_hash i remote_ip remote_port lan_ip lan_port proto) f j) where
  touched : (touch j i.next_flow (j.flows i.next_flow)).0 ≡ some f
  touched = rw est.cell (
      ap (λ t. some (record f { last_alive_time = t }))
        (est.same_time ∙ sym (ap (λ x. x.last_alive_time) est.made)))

  pub found_by_wan :
      lookup (wan_hash j remote_ip remote_port i.ip_addr f.wan_port proto) j.nat_wan_flow_table
      ≡ some i.next_flow
  found_by_wan = rw est.same_type (
      est.by_wan (wan_hash i remote_ip remote_port i.ip_addr f.wan_port proto)
      ∙ rw (beq_refl (wan_hash i remote_ip remote_port i.ip_addr f.wan_port proto)) refl)

  found_by_lan :
      lookup (flow_hash j remote_ip remote_port lan_ip lan_port proto) j.nat_flow_table
      ≡ some i.next_flow
  found_by_lan = rw est.same_type (
      est.by_lan (flow_hash i remote_ip remote_port lan_ip lan_port proto)
      ∙ rw (beq_refl (flow_hash i remote_ip remote_port lan_ip lan_port proto)) refl)

  Established-translates :
      ((nat_get_flow_by_wan j remote_ip remote_port i.ip_addr f.wan_port proto).0 ≡ some f)
      × ((nat_get_flow_by_hash j remote_ip remote_port lan_ip lan_port proto).0 ≡ some f)
      × (f.lan_host_ip_addr ≡ lan_ip)
      × (f.lan_host_port ≡ lan_port)
      × (f.wan_ip_addr ≡ i.ip_addr)
  unfolding nat_get_flow_by_wan nat_get_flow_by_hash
  Established-translates = (
    rw found_by_wan touched,
    rw found_by_lan touched,
    ap (λ x. x.lan_host_ip_addr) est.made,
    ap (λ x. x.lan_host_port) est.made,
    ap (λ x. x.wan_ip_addr) est.made,
  )

-- After a flow was created, a packet from the remote to the new WAN port is translated to the LAN
-- endpoint that it was created for, and a further packet of that endpoint finds the same flow.
pub nat_add_flow_translates :
    (i : Nat) (g : Grants) (lan_ip remote_ip lan_port remote_port proto : ℕ) (f : NatFlow)
    → lookup (flow_hash i remote_ip remote_port lan_ip lan_port proto) i.nat_flow_table ≡ none
    → (nat_add_flow i g lan_ip remote_ip lan_port remote_port proto).0 ≡ some f
    → let j = (nat_add_flow i g lan_ip remote_ip lan_port remote_port proto).1 in
      ((nat_get_flow_by_wan j remote_ip remote_port i.ip_addr f.wan_port proto).0 ≡ some f)
      × ((nat_get_flow_by_hash j remote_ip remote_port lan_ip lan_port proto).0 ≡ some f)
      × (f.lan_host_ip_addr ≡ lan_ip)
      × (f.lan_host_port ≡ lan_port)
      × (f.wan_ip_addr ≡ i.ip_addr)
nat_add_flow_translates i g lan_ip remote_ip lan_port remote_port proto f absent is_f =
    elim (nat_add_flow-Outcome i g lan_ip remote_ip lan_port remote_port proto absent) [
      | inr (is_none, u) ↦ absurd (cc)
      | inl (h, is_h, est) ↦
          Established-translates i _ remote_ip remote_port lan_ip lan_port proto f (
            subst
              (λ x.
                Established i (flow_hash i remote_ip remote_port lan_ip lan_port proto) x
                  (nat_add_flow i g lan_ip remote_ip lan_port remote_port proto).1)
              (some_inj (sym is_h ∙ is_f)) est)
    ]
