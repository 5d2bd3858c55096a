-- ===== src/Engine/Nat/Dropped.antt =====
-- engine/ipv4_engine.go: dropping a flow keeps the NAT tables and the port sets together.
use halo.Base.{
  ℕ, true, false, ◌≡◌, inl, inr, List, [], ◌∷◌, Option, none, some, ◌==◌, ==_iff, refl, sym, ap,
  ◌∙◌, arith, Bool-cases, some_inj, lookup, erase, insert, lookup-insert, lookup-erase, nat_key,
  if◌then◌else◌, Eq,
}
use halo.Engine.NatKey.{
  NatFlowHash, NatWanFlowHash, NatFlow, flow_key, wan_key, flow_key_eq, wan_key_eq, flow_key_eq_iff,
  wan_key_eq_iff,
}
use halo.Engine.Nat.{Nat, contains, remove, no_ports}
use halo.Engine.Nat.Clear.{wan_hash_of, give_back, drop_flow}
use halo.Engine.Nat.Create.{ports_of}
use halo.Engine.Nat.Consistent.{IsConsistent, Listed, Reverse, Used, held_ports}

contains-remove :
    (p q : ℕ) (l : List ℕ) → contains p (remove q l) ≡ (if p == q then false else contains p l)
contains-remove p q [] = ground arith
contains-remove p q (x ∷ l) = ground (arith, contains-remove p q l)

-- A set that became empty reads the same whether it is stored or not.
ports-give_back :
    (remote port : ℕ) (alloc : List (ℕ × List ℕ)) (o : Option (List ℕ)) (r : ℕ)
    → lookup remote alloc ≡ o
    → ports_of (lookup r (give_back remote port alloc o))
      ≡ (if remote == r then remove port (ports_of o) else ports_of (lookup r alloc))
unfolding give_back
ports-give_back remote port alloc none r h = elim (Bool-cases (remote == r)) [
  | inr n ↦ rw n refl
  | inl y ↦ rw y (ap ports_of (ap (λ x. lookup x alloc) (sym ((==_iff remote r).0 y)) ∙ h))
]
ports-give_back remote port alloc (some used) r h = kept (remove port used)
  where
    kept :
        (left : List ℕ)
        → ports_of (
            lookup r
              (if no_ports (some left) then erase remote alloc else insert remote left alloc))
          ≡ (if remote == r then left else ports_of (lookup r alloc))
    kept [] = ground (arith, lookup-erase remote r alloc)
    kept (x ∷ left) = ground (arith, lookup-insert remote r (x ∷ left) alloc)

module _ {ℓ κ} {K : Type ℓ} {V : Type κ} ⦃eq : Eq K⦄ where
  -- What is listed after a deletion was listed, under another key.
  listed-erase :
      (k j : K) (m : List (K × V)) {x : V}
      → lookup j (erase k m) ≡ some x
      → (eq.beq k j ≡ false) × (lookup j m ≡ some x)
  listed-erase k j m {x} h = elim (Bool-cases (eq.beq k j)) [
    | inr n ↦ (n, sym (lookup-erase k j m ∙ rw n refl) ∙ h)
    | inl y ↦
        let c : ◌≡◌ {A = Option V} none (some x) = sym (lookup-erase k j m ∙ rw y refl) ∙ h in
        absurd (cc c)
  ]

  kept-erase :
      (k j : K) (m : List (K × V)) {x : V}
      → (k ≡ j → ⊥)
      → lookup j m ≡ some x
      → lookup j (erase k m) ≡ some x
  kept-erase k j m other h = lookup-erase k j m ∙ elim (Bool-cases (eq.beq k j)) [
    | inr n ↦ rw n h
    | inl y ↦ absurd (other ((eq.beq_iff k j).0 y))
  ]

module _ (i : Nat) (key : NatFlowHash) (id : ℕ) (f : NatFlow) (v : IsConsistent i)
    (listed : lookup key i.nat_flow_table ≡ some id) (cell : i.flows id ≡ some f) where
  abbrev j : Nat
  j = drop_flow i key id f

  abbrev gone : NatWanFlowHash
  gone = wan_hash_of f

  own : (f.nat_flow_hash ≡ key) × (lookup gone i.nat_wan_flow_table ≡ some id)
  own =
      let (g, c, a, w, l) = v.lan key id listed in
      let q : g ≡ f = some_inj (sym c ∙ cell) in
      (
        ap (λ x. x.nat_flow_hash) (sym q) ∙ a,
        ap (λ x. lookup (wan_hash_of x) i.nat_wan_flow_table) (sym q) ∙ w,
      )

  pub kept_cell :
      (id' : ℕ) (g : NatFlow) → (id ≡ id' → ⊥) → i.flows id' ≡ some g → j.flows id' ≡ some g
  unfolding drop_flow
  kept_cell id' g other h = ground (arith, other)

  -- Another key has another flow.
  pub other_flow :
      (k : NatFlowHash) (id' : ℕ)
      → lookup k i.nat_flow_table ≡ some id'
      → flow_key_eq key k ≡ false
      → id ≡ id'
      → ⊥
  other_flow k id' h n q =
      let (g, c, a, w, l) = v.lan k id' h in
      let same : f ≡ g = some_inj (sym cell ∙ ap i.flows q ∙ c) in
      let y : flow_key_eq key k ≡ true =
        (flow_key_eq_iff key k).1 (sym (own.0) ∙ ap (λ x. x.nat_flow_hash) same ∙ a) in
      cc (y, n)

  lan_part : (k : NatFlowHash) (id' : ℕ) → lookup k j.nat_flow_table ≡ some id' → Listed j k id'
  unfolding drop_flow
  lan_part k id' h =
      let (n, o) = listed-erase key k i.nat_flow_table h in
      let (g, c, a, w, l) = v.lan k id' o in
      (
        g,
        kept_cell id' g (other_flow k id' o n) c,
        a,
        kept-erase gone (wan_hash_of g) i.nat_wan_flow_table
            (λ q.
              other_flow k id' o n
                (some_inj (sym (own.1) ∙ ap (λ x. lookup x i.nat_wan_flow_table) q ∙ w)))
            w,
        l,
      )

  wan_part :
      (w : NatWanFlowHash) (id' : ℕ) → lookup w j.nat_wan_flow_table ≡ some id' → Reverse j w id'
  unfolding drop_flow
  wan_part w id' h =
      let (n, o) = listed-erase gone w i.nat_wan_flow_table h in
      let (g, c, a, k, l) = v.wan w id' o in
      let other : id ≡ id' → ⊥ = λ (q : id ≡ id').
        let same : f ≡ g = some_inj (sym cell ∙ ap i.flows q ∙ c) in
        let y : wan_key_eq gone w ≡ true = (wan_key_eq_iff gone w).1 (ap wan_hash_of same ∙ a) in
        cc (y, n) in
      (
        g,
        kept_cell id' g other c,
        a,
        kept-erase key g.nat_flow_hash i.nat_flow_table
            (λ q. other (some_inj (sym listed ∙ ap (λ x. lookup x i.nat_flow_table) q ∙ k))) k,
        l,
      )

  held :
      (r : ℕ)
      → held_ports j r ≡ (
          if f.remote_ip_addr == r
          then remove f.wan_port (held_ports i f.remote_ip_addr)
          else held_ports i r)
  unfolding drop_flow
  held r =
      ports-give_back f.remote_ip_addr f.wan_port i.nat_port_alloc
        (lookup f.remote_ip_addr i.nat_port_alloc) r refl

  -- Exactly one port is missing afterwards.
  contains-held :
      (r p : ℕ)
      → contains p (held_ports j r) ≡ (
          if f.remote_ip_addr == r
          then (if p == f.wan_port then false else contains p (held_ports i r))
          else contains p (held_ports i r))
  contains-held r p = ap (contains p) (held r) ∙ elim (Bool-cases (f.remote_ip_addr == r)) [
    | inr n ↦ rw n refl
    | inl y ↦ rw y (
        contains-remove p f.wan_port (held_ports i f.remote_ip_addr)
        ∙ ap (λ x. if p == f.wan_port then false else contains p (held_ports i x))
            ((==_iff f.remote_ip_addr r).0 y))
  ]

  reserved_part :
      (w : NatWanFlowHash) (id' : ℕ)
      → lookup w j.nat_wan_flow_table ≡ some id'
      → contains w.wan_port (held_ports j w.remote_ip_addr) ≡ true
  unfolding drop_flow
  reserved_part w id' h =
      let (n, o) = listed-erase gone w i.nat_wan_flow_table h in
      let c = v.reserved w id' o in
      let apart : (f.remote_ip_addr ≡ w.remote_ip_addr) → (f.wan_port ≡ w.wan_port) → ⊥ =
        λ (a : f.remote_ip_addr ≡ w.remote_ip_addr) (b : f.wan_port ≡ w.wan_port).
          let y = (wan_key_eq_iff gone w).1 (v.unique gone w id id' own.1 o a b) in cc (y, n) in
      contains-held w.remote_ip_addr w.wan_port ∙ ground (arith, apart, c)

  ports_part : (r p : ℕ) → contains p (held_ports j r) ≡ true → Used j r p
  unfolding drop_flow
  ports_part r p h =
      let g = sym (contains-held r p) ∙ h in
      let c : contains p (held_ports i r) ≡ true = ground (arith, g) in
      let (w, id', l, a, b) = v.used r p c in
      (
        w,
        id',
        kept-erase gone w i.nat_wan_flow_table
            (λ q.
              let x = ap (λ y. y.remote_ip_addr) q in
              let y = ap (λ y. y.wan_port) q in ground (arith, g, x, y, a, b))
            l,
        a,
        b,
      )

  pub drop_flow-IsConsistent : IsConsistent (drop_flow i key id f)
  unfolding drop_flow
  drop_flow-IsConsistent = record {
    lan = lan_part;
    wan = wan_part;
    reserved = reserved_part;
    unique = λ w x a b h g.
        v.unique w x a b (listed-erase gone w i.nat_wan_flow_table h).1
          (listed-erase gone x i.nat_wan_flow_table g).1;
    used = ports_part;
  }
