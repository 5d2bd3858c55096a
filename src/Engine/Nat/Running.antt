-- ===== src/Engine/Nat/Running.antt =====
-- engine/ipv4_engine.go: the NAT of an interface from the empty tables on, under any sequence of
-- its operations, each of which holds NatLock.
use mathlib.Core.Path.{subst}
use halo.Base.{
  ℕ, true, ◌≡◌, ◌↔◌, inl, inr, List, [], ◌∷◌, Option, none, some, ◌==◌, ◌||◌, ==_iff, refl, sym, ap,
  ◌∙◌, Bool-cases, Option-cases, some_inj, lookup, nat_key, map,
}
use halo.Engine.NatKey.{NatFlowHash, NatFlow, flow_key, wan_key}
use halo.Engine.Nat.{
  Nat, Grants, contains, touch, touch_found, flow_hash, wan_hash, nat_get_flow_by_hash,
  nat_get_flow_by_wan, nat_add_flow,
}
use halo.Engine.Nat.Create.{nat_add_flow-Outcome}
use halo.Engine.Nat.Clear.{wan_hash_of, clear_found, clear_flow, clear_keys, nat_table_clear, idle}
use halo.Engine.Nat.Consistent.{IsConsistent, Unchanged-IsConsistent, held_ports}
use halo.Engine.Nat.Added.{Established-IsConsistent}
use halo.Engine.Nat.Dropped.{drop_flow-IsConsistent}

-- The operations, and what else changes: the clock, and the address that a DHCP client gets.
pub data Step : Nat → Nat → Type 0 where
  added :
      (i : Nat) (g : Grants) (lan_ip remote_ip lan_port remote_port proto : ℕ)
      → Step i (nat_add_flow i g lan_ip remote_ip lan_port remote_port proto).1
  outbound :
      (i : Nat) (remote_ip remote_port lan_ip lan_port proto : ℕ)
      → Step i (nat_get_flow_by_hash i remote_ip remote_port lan_ip lan_port proto).1
  inbound :
      (i : Nat) (remote_ip remote_port wan_ip wan_port proto : ℕ)
      → Step i (nat_get_flow_by_wan i remote_ip remote_port wan_ip wan_port proto).1
  cleared : (i : Nat) → Step i (nat_table_clear i)
  time : (i : Nat) (now : ℕ) → Step i (record i { time_now = now })
  address : (i : Nat) (ip : ℕ) → Step i (record i { ip_addr = ip })

pub data Reach (i : Nat) : Nat → Type 0 where
  here : Reach i i
  next : {j k : Nat} → Reach i j → Step j k → Reach i k

-- A flow that is only touched keeps its keys.
touch-IsConsistent :
    (i : Nat) (id : ℕ) (o : Option NatFlow)
    → i.flows id ≡ o
    → IsConsistent i
    → IsConsistent (touch i id o).1
touch-IsConsistent i id none e v = v
touch-IsConsistent i id (some f) e v = record {
  lan = λ k x h.
      let (g, c, a, w, l) = v.lan k x h in
      elim (Bool-cases (x == id)) [
        | inr n ↦ (g, rw n c, a, w, l)
        | inl y ↦
            let same : f ≡ g = some_inj (sym e ∙ ap i.flows (sym ((==_iff x id).0 y)) ∙ c) in
            (
              record f { last_alive_time = i.time_now },
              rw y refl,
              ap (λ z. z.nat_flow_hash) same ∙ a,
              ap (λ z. lookup (wan_hash_of z) i.nat_wan_flow_table) same ∙ w,
              l,
            )
      ];
  wan = λ w x h.
      let (g, c, a, k, l) = v.wan w x h in
      elim (Bool-cases (x == id)) [
        | inr n ↦ (g, rw n c, a, k, l)
        | inl y ↦
            let same : f ≡ g = some_inj (sym e ∙ ap i.flows (sym ((==_iff x id).0 y)) ∙ c) in
            (
              record f { last_alive_time = i.time_now },
              rw y refl,
              ap wan_hash_of same ∙ a,
              ap (λ z. lookup z.nat_flow_hash i.nat_flow_table) same ∙ k,
              l,
            )
      ];
  reserved = v.reserved;
  unique = v.unique;
  used = v.used;
}

touch_found-IsConsistent :
    (i : Nat) (o : Option ℕ) → IsConsistent i → IsConsistent (touch_found i o).1
touch_found-IsConsistent i none v = v
touch_found-IsConsistent i (some id) v = touch-IsConsistent i id (i.flows id) refl v

module _ (i : Nat) (g : Grants) (lan_ip remote_ip lan_port remote_port proto : ℕ)
    (v : IsConsistent i) where
  abbrev asked : NatFlowHash
  asked = flow_hash i remote_ip remote_port lan_ip lan_port proto

  add_known :
      (id : ℕ)
      → lookup asked i.nat_flow_table ≡ some id
      → IsConsistent (nat_add_flow i g lan_ip remote_ip lan_port remote_port proto).1
  unfolding nat_add_flow
  add_known id h = elim (Bool-cases (lan_port == 0 || remote_port == 0)) [
    | inl y ↦ rw y v
    | inr n ↦ rw (n, h) (touch-IsConsistent i id (i.flows id) refl v)
  ]

  nat_add_flow-IsConsistent :
      IsConsistent (nat_add_flow i g lan_ip remote_ip lan_port remote_port proto).1
  nat_add_flow-IsConsistent = elim (Option-cases (lookup asked i.nat_flow_table)) [
    | inr (id, h) ↦ add_known id h
    | inl h ↦ elim (nat_add_flow-Outcome i g lan_ip remote_ip lan_port remote_port proto h) [
      | inl (f, q, e) ↦ Established-IsConsistent i _ asked f v e h
      | inr (q, u) ↦ Unchanged-IsConsistent i _ v u
    ]
  ]

clear_flow-IsConsistent :
    (i : Nat) (key : NatFlowHash) (id : ℕ) (o : Option NatFlow)
    → lookup key i.nat_flow_table ≡ some id
    → i.flows id ≡ o
    → IsConsistent i
    → IsConsistent (clear_flow i key id o)
clear_flow-IsConsistent i key id none h e v = v
clear_flow-IsConsistent i key id (some f) h e v = elim (Bool-cases (idle i f)) [
  | inl y ↦ rw y (drop_flow-IsConsistent i key id f v h e)
  | inr n ↦ rw n v
]

pub clear_found-IsConsistent :
    (i : Nat) (key : NatFlowHash) (o : Option ℕ)
    → lookup key i.nat_flow_table ≡ o
    → IsConsistent i
    → IsConsistent (clear_found i key o)
clear_found-IsConsistent i key none h v = v
clear_found-IsConsistent i key (some id) h v =
    clear_flow-IsConsistent i key id (i.flows id) h refl v

clear_keys-IsConsistent :
    (keys : List NatFlowHash) (i : Nat) → IsConsistent i → IsConsistent (clear_keys keys i)
unfolding clear_keys
clear_keys-IsConsistent [] i v = v
clear_keys-IsConsistent (key ∷ keys) i v =
    clear_keys-IsConsistent keys (clear_found i key (lookup key i.nat_flow_table))
      (clear_found-IsConsistent i key (lookup key i.nat_flow_table) refl v)

-- Every operation of NAT keeps the tables, the port sets and the flows together.
pub Step-IsConsistent : {i j : Nat} → Step i j → IsConsistent i → IsConsistent j
unfolding nat_get_flow_by_hash nat_get_flow_by_wan nat_table_clear
Step-IsConsistent (added i g a b c d p) v = nat_add_flow-IsConsistent i g a b c d p v
Step-IsConsistent (outbound i a b c d p) v =
    touch_found-IsConsistent i (lookup (flow_hash i a b c d p) i.nat_flow_table) v
Step-IsConsistent (inbound i a b c d p) v =
    touch_found-IsConsistent i (lookup (wan_hash i a b c d p) i.nat_wan_flow_table) v
Step-IsConsistent (cleared i) v =
    clear_keys-IsConsistent (map (λ (e : NatFlowHash × ℕ). e.0) i.nat_flow_table) i v
Step-IsConsistent (time i now) v = record {
  lan = v.lan;
  wan = v.wan;
  reserved = v.reserved;
  unique = v.unique;
  used = v.used;
}
Step-IsConsistent (address i ip) v = record {
  lan = v.lan;
  wan = v.wan;
  reserved = v.reserved;
  unique = v.unique;
  used = v.used;
}

Reach-IsConsistent : {i j : Nat} → IsConsistent i → Reach i j → IsConsistent j
Reach-IsConsistent v here = v
Reach-IsConsistent v (next r s) = Step-IsConsistent s (Reach-IsConsistent v r)

abbrev pub IsEmpty : Nat → Type 0
IsEmpty i = (i.nat_flow_table ≡ []) × (i.nat_wan_flow_table ≡ []) × (i.nat_port_alloc ≡ [])

pub IsEmpty-IsConsistent : (i : Nat) → IsEmpty i → IsConsistent i
IsEmpty-IsConsistent i (lan, wan, ports) = record {
  lan = λ k id h. absurd (cc (rw lan at h));
  wan = λ w id h. absurd (cc (rw wan at h));
  reserved = λ w id h. absurd (cc (rw wan at h));
  unique = λ w x id jd h g a b. absurd (cc (rw wan at h));
  used = λ r p h. absurd (cc (rw ports at h));
}

-- From empty tables on, whatever the operations were, two LAN keys whose flows have the same remote
-- address, as NAT keys it, and the same WAN port are one key: no reply can reach the wrong host.
pub Reach-separate :
    {i j : Nat} (k l : NatFlowHash) (id jd : ℕ) (f g : NatFlow)
    → IsEmpty i
    → Reach i j
    → lookup k j.nat_flow_table ≡ some id
    → lookup l j.nat_flow_table ≡ some jd
    → j.flows id ≡ some f
    → j.flows jd ≡ some g
    → f.remote_ip_addr ≡ g.remote_ip_addr
    → f.wan_port ≡ g.wan_port
    → k ≡ l
Reach-separate {i} {j} k l id jd f g z r h h' c c' a b =
    let v = Reach-IsConsistent (IsEmpty-IsConsistent i z) r in
    let (x, cx, kx, wx, _) = v.lan k id h in
    let (y, cy, ky, wy, _) = v.lan l jd h' in
    let fx : f ≡ x = some_inj (sym c ∙ cx) in
    let gy : g ≡ y = some_inj (sym c' ∙ cy) in
    let w : wan_hash_of x ≡ wan_hash_of y =
      v.unique (wan_hash_of x) (wan_hash_of y) id jd wx wy
        (ap (λ q. q.remote_ip_addr) (sym fx) ∙ a ∙ ap (λ q. q.remote_ip_addr) gy)
        (ap (λ q. q.wan_port) (sym fx) ∙ b ∙ ap (λ q. q.wan_port) gy) in
    let same : id ≡ jd = some_inj (sym wx ∙ ap (λ q. lookup q j.nat_wan_flow_table) w ∙ wy) in
    let xy : x ≡ y = some_inj (sym cx ∙ ap j.flows same ∙ cy) in
    sym kx ∙ ap (λ q. q.nat_flow_hash) xy ∙ ky

-- From empty tables on, whatever the operations were, a port is in the set of a remote address
-- exactly if a LAN key leads to a flow with that port and address: no port is lost, and none
-- is given out twice.
pub Reach-ports :
    {i j : Nat} (remote port : ℕ)
    → IsEmpty i
    → Reach i j
    → (contains port (held_ports j remote) ≡ true) ↔ (
        (k : NatFlowHash) × (id : ℕ) × (f : NatFlow) × (lookup k j.nat_flow_table ≡ some id)
        × (j.flows id ≡ some f)
        × (f.remote_ip_addr ≡ remote)
        × (f.wan_port ≡ port))
Reach-ports {i} {j} remote port z r =
    let v = Reach-IsConsistent (IsEmpty-IsConsistent i z) r in
    (
      λ h.
          let (w, id, l, a, b) = v.used remote port h in
          let (f, c, q, k, _) = v.wan w id l in
          (
            f.nat_flow_hash,
            id,
            f,
            k,
            c,
            ap (λ x. x.remote_ip_addr) q ∙ a,
            ap (λ x. x.wan_port) q ∙ b,
          ),
      λ (k, id, f, h, c, a, b).
          let (g, cg, kg, w, _) = v.lan k id h in
          let same : g ≡ f = some_inj (sym cg ∙ c) in
          subst (λ x. contains port (held_ports j x) ≡ true) (ap (λ x. x.remote_ip_addr) same ∙ a)
            (subst (λ x. contains x (held_ports j g.remote_ip_addr) ≡ true)
              (ap (λ x. x.wan_port) same ∙ b) (v.reserved (wan_hash_of g) id w)),
    )
