-- ===== src/HashMap/Laws.antt =====
-- hashmap/hashmap.go: Get after Set, Del, Clear and the constructor.
use halo.Base.{
  ℕ, Bool, true, false, ◌⊎◌, suc, ◌*◌, ◌/◌, ◌≡◌, ◌||◌, List, Option, none, some, if◌then◌else◌, Eq,
  length, refl, ap, sym, ◌∙◌, Bool-cases, inl, inr, if_rule, ltb,
}
use halo.HashMap.{HashMap, Grants, get, set_value, del, clear, grow_if_full, with_entry, has_key}
use halo.HashMap.Buckets.{
  IsPlaced, look, with_entry-IsPlaced, look-with_entry, removed-IsPlaced, look-removed,
}
use halo.HashMap.Growth.{SameMap, grow-SameMap, empty-IsPlaced, look-empty}

no_value {ℓ} : {A : Type ℓ} (o : Option A) → has_key o ≡ false → o ≡ none
no_value none h = refl
no_value (some a) h = cc

module _ {ℓ κ} {K : Type ℓ} {V : Type κ} ⦃eq : Eq K⦄ (hash : K → ℕ) where
  -- What `Set` leaves, and whether it stored the value.
  pub record Stores (k : K) (v : V) (m : HashMap K V) (done : Bool) (n : HashMap K V)
      : Type (ℓ ⊔ κ) where
    pub placed : IsPlaced hash n.bucket
    pub gets :
        (j : K)
        → get hash j n
          ≡ (if done then (if eq.beq k j then some v else get hash j m) else get hash j m)
    pub else_same : (done ≡ true) ⊎ (n ≡ m)

  grow_if_full-SameMap :
      (grants : Grants) (m : HashMap K V)
      → IsPlaced hash m.bucket
      → SameMap hash m (grow_if_full hash grants m)
  grow_if_full-SameMap grants m v =
      if_rule (SameMap hash m) (ltb (length m.bucket * 3 / 4) m.len)
        (λ _. grow-SameMap hash grants m v) (λ _. record { placed = v; looks = λ j. refl })

  -- Setting a key in a well-placed table stores the value or, where the key is new and no memory is
  -- left for its entry, fails and returns the table as it was, whether the table grows, need not or cannot: after
  -- a success Get finds the value for this key and what it found before for all others, and
  -- the keys are in the chains of their hashes again.
  pub get-set_value :
      (grants : Grants) (k : K) (v : V) (m : HashMap K V)
      → IsPlaced hash m.bucket
      → Stores k v m (set_value hash grants k v m).0 (set_value hash grants k v m).1
        × ((set_value hash grants k v m).0 ≡ (has_key (get hash k m) || grants.entry))
  unfolding get set_value
  get-set_value grants k v m p =
      let b : List (List (K × V)) = with_entry hash k v m.bucket in
      let P = λ (r : Bool × HashMap K V).
        Stores k v m r.0 r.1 × (r.0 ≡ (has_key (look hash k m.bucket) || grants.entry)) in
      let w = with_entry-IsPlaced hash m.bucket p k v in
      if_rule P (has_key (look hash k m.bucket))
        (λ old. (
          record { placed = w; gets = look-with_entry hash m.bucket p k v; else_same = inl refl },
          rw old,
        ))
        λ new.
          if_rule P grants.entry
            (λ granted.
              let s = grow_if_full-SameMap grants (record { bucket = b; len = suc m.len }) w in
              (
                record {
                  placed = s.placed;
                  gets = λ j. s.looks j ∙ look-with_entry hash m.bucket p k v j;
                  else_same = inl refl;
                },
                rw (new, granted),
              ))
            (λ refused.
              (record { placed = p; gets = λ j. refl; else_same = inr refl }, rw (new, refused)))

  missing :
      (k j : K) (b : List (List (K × V)))
      → look hash k b ≡ none
      → look hash j b ≡ (if eq.beq k j then none else look hash j b)
  missing k j b h = elim (Bool-cases (eq.beq k j)) [
    | inl same ↦ rw same (ap (λ i. look hash i b) (sym ((eq.beq_iff k j).0 same)) ∙ h)
    | inr other ↦ rw other refl
  ]

  -- Deleting a key from a well-placed table leaves Get without a value for it, and with what it found
  -- before for all others, and the table stays well placed.
  pub get-del :
      (k : K) (m : HashMap K V)
      → IsPlaced hash m.bucket
      → IsPlaced hash (del hash k m).bucket
        × ((j : K) → get hash j (del hash k m) ≡ (if eq.beq k j then none else get hash j m))
  unfolding get del
  get-del k m p =
      let P = λ (n : HashMap K V).
        IsPlaced hash n.bucket
        × ((j : K) → look hash j n.bucket ≡ (if eq.beq k j then none else look hash j m.bucket)) in
      if_rule P (has_key (look hash k m.bucket))
        (λ _. (removed-IsPlaced hash m.bucket p k, look-removed hash m.bucket p k))
        (λ absent. (p, λ j. missing k j m.bucket (no_value _ absent)))

  -- A new table and a table after Clear are well placed, and Get finds nothing in them.
  pub get-clear :
      (m : HashMap K V)
      → IsPlaced hash m.bucket
      → IsPlaced hash (clear m).bucket × ((j : K) → get hash j (clear m) ≡ none)
  unfolding get clear
  get-clear m p =
      (empty-IsPlaced hash (length m.bucket) p.buckets, look-empty hash (length m.bucket))
