-- ===== src/HashMap/Size.antt =====
-- hashmap/hashmap.go: the number of entries.
use halo.Base.{
  ℕ, Bool, true, zero, suc, ◌+◌, ◌*◌, ◌/◌, ◌≡◌, ◌<◌, List, [], ◌∷◌, some, if◌then◌else◌, Eq, lookup,
  insert, length, length-append, get_or, set, arith, refl, ap, sym, ◌∙◌, replicate, Bool-cases, inl,
  inr, if_rule, ltb, some_inj, Option-cases,
}
use mathlib.Core.Path.{subst}
use native.Mathlib.Nat.{mod-lt}
use halo.HashMap.{
  HashMap, Grants, all_entries, with_entry, copy_entry, copy_entries, grow, grow_if_full, set_value,
  del, has_key, without, chain_of, index,
}
use halo.HashMap.Growth.{none-ne-some, copy_entries-none, empty-IsPlaced}
use halo.HashMap.Buckets.{removed-IsPlaced, IsPlaced, look, with_entry-IsPlaced}

module _ {ℓ κ} {K : Type ℓ} {V : Type κ} where
  -- The length says how many entries there are.
  abbrev pub IsCounted : HashMap K V → Type 0
  IsCounted m = m.len ≡ length (all_entries m.bucket)

  length-all_entries-set :
      (b : List (List (K × V))) (i : ℕ) (c : List (K × V))
      → i < length b
      → length (all_entries (set b i c)) + length (get_or b i [])
        ≡ length (all_entries b) + length c
  length-all_entries-set [] i c h = absurd (omega arith)
  length-all_entries-set (x ∷ b) zero c h =
      omega (arith, length-append c (all_entries b), length-append x (all_entries b))
  length-all_entries-set (x ∷ b) (suc i) c h = omega (
    arith,
    length-append x (all_entries (set b i c)),
    length-append x (all_entries b),
    length-all_entries-set b i c,
  )

  all_entries-replicate : (n : ℕ) → ◌≡◌ {A = List (K × V)} (all_entries (replicate n [])) []
  all_entries-replicate zero = refl
  all_entries-replicate (suc n) = all_entries-replicate n

module _ {ℓ κ} {K : Type ℓ} {V : Type κ} ⦃eq : Eq K⦄ where
  length-insert :
      (k : K) (v : V) (c : List (K × V))
      → length (insert k v c) ≡ (if has_key (lookup k c) then length c else suc (length c))
  length-insert k v [] = refl
  length-insert k v ((j, w) ∷ c) = ground (arith, length-insert k v c)

  length-without :
      (k : K) (c : List (K × V))
      → has_key (lookup k c) ≡ true
      → suc (length (without k c)) ≡ length c
  length-without k [] h = cc
  length-without k ((j, w) ∷ c) h = ground (arith, length-without k c)

module _ {ℓ κ} {K : Type ℓ} {V : Type κ} ⦃eq : Eq K⦄ (hash : K → ℕ) where
  length-with_entry :
      (b : List (List (K × V))) (k : K) (v : V)
      → IsPlaced hash b
      → length (all_entries (with_entry hash k v b))
        ≡ (if has_key (look hash k b) then length (all_entries b) else suc (length (all_entries b)))
  length-with_entry b k v p = ground (
    arith,
    length-all_entries-set b (index hash k b) (insert k v (chain_of hash k b))
        (mod-lt (hash k) (omega (arith, p.buckets))),
    length-insert k v (chain_of hash k b),
  )

  -- What holds of a table all the way.
  pub record IsTable (m : HashMap K V) : Type (ℓ ⊔ κ) where
    pub placed : IsPlaced hash m.bucket
    pub counted : IsCounted m

  stored :
      (m : HashMap K V) (k : K) (v : V)
      → IsTable m
      → IsTable (record {
        bucket = with_entry hash k v m.bucket;
        len = if has_key (look hash k m.bucket) then m.len else suc m.len;
      })
  stored m k v t = record {
    placed = with_entry-IsPlaced hash m.bucket t.placed k v;
    counted = ground (arith, t.counted, length-with_entry m.bucket k v t.placed);
  }

  pub empty-IsTable : (n : ℕ) → 0 < n → IsTable (record { bucket = replicate n []; len = 0 })
  empty-IsTable n h = record {
    placed = empty-IsPlaced hash n h;
    counted = ap length (sym (all_entries-replicate n));
  }

  copy_entry-IsTable :
      (copies : ℕ → Bool) (k : K) (x : V) (t w : HashMap K V)
      → IsTable t
      → copy_entry hash copies k x t ≡ some w
      → IsTable w
  copy_entry-IsTable copies k x t w v h = elim (Bool-cases (has_key (look hash k t.bucket))) [
    | inl old ↦ subst IsTable (some_inj (rw old at h)) (rw old at (stored t k x v))
    | inr new ↦ elim (Bool-cases (copies t.len)) [
      | inl c ↦ subst IsTable (some_inj (rw (new, c) at h)) (rw new at (stored t k x v))
      | inr c ↦ absurd (none-ne-some (rw (new, c) at h))
    ]
  ]

  copy_entries-IsTable :
      (copies : ℕ → Bool) (es : List (K × V)) (t u : HashMap K V)
      → IsTable t
      → copy_entries hash copies es (some t) ≡ some u
      → IsTable u
  unfolding copy_entries
  copy_entries-IsTable copies [] t u v h = subst IsTable (some_inj h) v
  copy_entries-IsTable copies ((k, x) ∷ es) t u v h =
      elim (Option-cases (copy_entry hash copies k x t)) [
        | inl e ↦ absurd (
            none-ne-some (
              sym (copy_entries-none hash copies es)
              ∙ ap (copy_entries hash copies es) (sym e)
              ∙ h))
        | inr (w, e) ↦
            copy_entries-IsTable copies es w u (copy_entry-IsTable copies k x t w v e)
              (ap (copy_entries hash copies es) (sym e) ∙ h)
      ]

  grow-IsTable : (grants : Grants) (m : HashMap K V) → IsTable m → IsTable (grow hash grants m)
  unfolding grow
  grow-IsTable grants m v =
      let t : HashMap K V = record { bucket = replicate (length m.bucket * 2) []; len = 0 } in
      let w : IsTable t = empty-IsTable (length m.bucket * 2) (omega (arith, v.placed.buckets)) in
      if_rule IsTable grants.table
        (λ _.
          elim (Option-cases (copy_entries hash grants.copies (all_entries m.bucket) (some t))) [
            | inl e ↦ rw e v
            | inr (u, e) ↦ rw e (copy_entries-IsTable grants.copies (all_entries m.bucket) t u w e)
          ])
        (λ _. v)

  grow_if_full-IsTable :
      (grants : Grants) (m : HashMap K V) → IsTable m → IsTable (grow_if_full hash grants m)
  grow_if_full-IsTable grants m v =
      if_rule IsTable (ltb (length m.bucket * 3 / 4) m.len) (λ _. grow-IsTable grants m v) (λ _. v)

  -- A well-formed table, in which each key stands once, in the chain of its hash, and `len` counts
  -- the entries, stays well formed when a value is set, on every outcome of the allocations.
  pub set_value-IsTable :
      (grants : Grants) (k : K) (v : V) (m : HashMap K V)
      → IsTable m
      → IsTable (set_value hash grants k v m).1
  unfolding set_value
  set_value-IsTable grants k v m t =
      let P = λ (r : Bool × HashMap K V). IsTable r.1 in
      if_rule P (has_key (look hash k m.bucket)) (λ old. rw old at (stored m k v t))
        λ new.
          if_rule P grants.entry (λ _. grow_if_full-IsTable grants _ (rw new at (stored m k v t)))
            (λ _. t)

  -- A well-formed table stays well formed when a key is deleted.
  pub del-IsTable : (k : K) (m : HashMap K V) → IsTable m → IsTable (del hash k m)
  unfolding del
  del-IsTable k m t =
      if_rule IsTable (has_key (look hash k m.bucket))
        (λ h. record {
          placed = removed-IsPlaced hash m.bucket t.placed k;
          counted = omega (
            arith,
            t.counted,
            length-all_entries-set m.bucket (index hash k m.bucket)
                (without k (chain_of hash k m.bucket))
                (mod-lt (hash k) (omega (arith, t.placed.buckets))),
            length-without k (chain_of hash k m.bucket) h,
          );
        })
        (λ _. t)
