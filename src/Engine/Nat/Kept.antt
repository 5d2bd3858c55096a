-- ===== src/Engine/Nat/Kept.antt =====
-- engine/ipv4_engine.go: which flows NatTableClear leaves.
use mathlib.Core.Path.{subst}
use halo.Base.{
  ℕ, Bool, true, false, ◌≡◌, List, [], ◌∷◌, Option, none, some, ◌||◌, refl, sym, ap, ◌∙◌, arith,
  Bool-cases, Option-cases, lookup, erase, lookup-erase, if◌then◌else◌, map,
}
use halo.Engine.NatKey.{NatFlowHash, NatFlow, flow_key, flow_key_eq, flow_key_eq_iff}
use halo.Engine.Nat.{Nat}
use halo.Engine.Nat.Clear.{clear_found, clear_flow, clear_keys, drop_flow, nat_table_clear, idle}
use halo.Engine.Nat.Consistent.{IsConsistent}
use halo.Engine.Nat.Dropped.{other_flow, kept_cell}
use halo.Engine.Nat.Running.{clear_found-IsConsistent}
use halo.Base.{inl}
use halo.Base.{inr}
use halo.Base.{ltb}
use halo.Base.{u32}
use halo.Base.{◌+◌}
use halo.Base.{◌^◌}
use halo.Base.{◌-◌}

-- The flow that a key leads to.
abbrev pub flow_at : Nat → Option ℕ → Option NatFlow
flow_at i none = none
flow_at i (some id) = i.flows id

abbrev pub flow_of : Nat → NatFlowHash → Option NatFlow
flow_of i k = flow_at i (lookup k i.nat_flow_table)

-- A flow that was not used for more than 60 seconds is left out. The times are of 32 bits.
abbrev pub unless_idle : Nat → Option NatFlow → Option NatFlow
unless_idle i none = none
unless_idle i (some f) =
    if ltb 60 (u32 (i.time_now + 2 ^ 32 - f.last_alive_time)) then none else some f

module _ (i : Nat) (v : IsConsistent i) where
  found :
      (k : NatFlowHash) (id : ℕ)
      → lookup k i.nat_flow_table ≡ some id
      → (f : NatFlow) × (i.flows id ≡ some f)
  found k id h = let (f, c, _, _, _) = v.lan k id h in (f, c)

  -- Dropping the flow of another key leaves the flow of `k`.
  flow_of-drop :
      (key k : NatFlowHash) (id : ℕ) (f : NatFlow)
      → lookup key i.nat_flow_table ≡ some id
      → i.flows id ≡ some f
      → flow_key_eq key k ≡ false
      → flow_of (drop_flow i key id f) k ≡ flow_of i k
  unfolding drop_flow
  flow_of-drop key k id f h c n =
      let e = lookup-erase key k i.nat_flow_table ∙ rw n refl in
      elim (Option-cases (lookup k i.nat_flow_table)) [
        | inl z ↦ rw (e ∙ z, z) refl
        | inr (id', o) ↦
            let (g, cg) = found k id' o in
            rw (e ∙ o, o)
              (kept_cell i key id f v h c id' g (other_flow i key id f v h c k id' o n) cg ∙ sym cg)
      ]

  flow_of-drop_self :
      (key : NatFlowHash) (id : ℕ) (f : NatFlow) → flow_of (drop_flow i key id f) key ≡ none
  unfolding drop_flow
  flow_of-drop_self key id f =
      let e : lookup key (erase key i.nat_flow_table) ≡ none =
        lookup-erase key key i.nat_flow_table ∙ rw ((flow_key_eq_iff key key).1 refl) refl in
      ap (flow_at (drop_flow i key id f)) e

  -- One call of the closure.
  flow_of-clear_found :
      (key k : NatFlowHash)
      → flow_of (clear_found i key (lookup key i.nat_flow_table)) k
        ≡ (if flow_key_eq key k then unless_idle i (flow_of i k) else flow_of i k)
  flow_of-clear_found key k = elim (Option-cases (lookup key i.nat_flow_table)) [
    | inl z ↦ rw z (elim (Bool-cases (flow_key_eq key k)) [
      | inr n ↦ rw n refl
      | inl y ↦
          let e : flow_of i k ≡ none =
            ap (flow_of i) (sym ((flow_key_eq_iff key k).0 y)) ∙ ap (flow_at i) z in
          rw (y, e) refl
    ])
    | inr (id, h) ↦
        let (f, c) = found key id h in
        rw (h, c)
          (elim (Bool-cases (idle i f)) [
            | inr m ↦ rw m (elim (Bool-cases (flow_key_eq key k)) [
              | inr n ↦ rw n refl
              | inl y ↦
                  let e : flow_of i k ≡ some f =
                    ap (flow_of i) (sym ((flow_key_eq_iff key k).0 y)) ∙ ap (flow_at i) h ∙ c in
                  rw (y, e, m) refl
            ])
            | inl m ↦ rw m (elim (Bool-cases (flow_key_eq key k)) [
              | inr n ↦ rw n (flow_of-drop key k id f h c n)
              | inl y ↦
                  let q = (flow_key_eq_iff key k).0 y in
                  let e : flow_of i k ≡ some f = ap (flow_of i) (sym q) ∙ ap (flow_at i) h ∙ c in
                  rw (y, e, m)
                    (subst (λ x. flow_of (drop_flow i key id f) x ≡ none) q
                      (flow_of-drop_self key id f))
            ])
          ])
  ]

unless_idle_twice :
    (i : Nat) (o : Option NatFlow) → unless_idle i (unless_idle i o) ≡ unless_idle i o
unless_idle_twice i none = refl
unless_idle_twice i (some f) = ground arith

-- The clock does not move.
clear_flow_time :
    (i : Nat) (key : NatFlowHash) (id : ℕ) (o : Option NatFlow)
    → (clear_flow i key id o).time_now ≡ i.time_now
unfolding drop_flow
clear_flow_time i key id none = refl
clear_flow_time i key id (some f) = ground arith

clear_found_time :
    (i : Nat) (key : NatFlowHash) (o : Option ℕ) → (clear_found i key o).time_now ≡ i.time_now
clear_found_time i key none = refl
clear_found_time i key (some id) = clear_flow_time i key id (i.flows id)

same_time-unless_idle :
    (i j : Nat) (o : Option NatFlow) → j.time_now ≡ i.time_now → unless_idle j o ≡ unless_idle i o
same_time-unless_idle i j none e = refl
same_time-unless_idle i j (some f) e = rw e refl

abbrev among : NatFlowHash → List NatFlowHash → Bool
among k [] = false
among k (key ∷ keys) = flow_key_eq key k || among k keys

flow_of-clear_keys :
    (keys : List NatFlowHash) (i : Nat) (k : NatFlowHash)
    → IsConsistent i
    → flow_of (clear_keys keys i) k
      ≡ (if among k keys then unless_idle i (flow_of i k) else flow_of i k)
unfolding clear_keys
flow_of-clear_keys [] i k v = refl
flow_of-clear_keys (key ∷ keys) i k v =
    let j = clear_found i key (lookup key i.nat_flow_table) in
    let v' = clear_found-IsConsistent i key (lookup key i.nat_flow_table) refl v in
    let t = clear_found_time i key (lookup key i.nat_flow_table) in
    flow_of-clear_keys keys j k v'
    ∙ rw (same_time-unless_idle i j (flow_of j k) t, flow_of-clear_found i v key k)
        (joined (flow_key_eq key k) (among k keys) (flow_of i k))
  where
    joined :
        (a b : Bool) (o : Option NatFlow)
        → (if b
            then unless_idle i (if a then unless_idle i o else o)
            else (if a then unless_idle i o else o))
          ≡ (if a || b then unless_idle i o else o)
    joined true true o = unless_idle_twice i o
    joined true false o = refl
    joined false true o = refl
    joined false false o = refl

among-keys :
    (k : NatFlowHash) (id : ℕ) (m : List (NatFlowHash × ℕ))
    → lookup k m ≡ some id
    → among k (map (λ (e : NatFlowHash × ℕ). e.0) m) ≡ true
among-keys k id [] h = absurd (cc)
among-keys k id ((key, x) ∷ m) h = elim (Bool-cases (flow_key_eq key k)) [
  | inl y ↦ rw y refl
  | inr n ↦ rw n (among-keys k id m (rw n at h))
]

-- One tick of NatTableClear on consistent tables leaves, under each LAN key, the flow that was there
-- if it was used in the last 60 seconds, and nothing else.
pub nat_table_clear_kept :
    (i : Nat) (k : NatFlowHash)
    → IsConsistent i
    → flow_of (nat_table_clear i) k ≡ unless_idle i (flow_of i k)
unfolding nat_table_clear
nat_table_clear_kept i k v =
    flow_of-clear_keys (map (λ (e : NatFlowHash × ℕ). e.0) i.nat_flow_table) i k v
    ∙ elim (Option-cases (lookup k i.nat_flow_table)) [
      | inl z ↦ rw z (ground arith)
      | inr (id, h) ↦ rw (among-keys k id i.nat_flow_table h) refl
    ]
