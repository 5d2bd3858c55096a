-- ===== src/HashMap/Growth.antt =====
-- hashmap/hashmap.go: `Grow`, which copies the entries of all chains into a table of twice the size.
use halo.Base.{
  ℕ, Bool, true, false, zero, suc, ◌*◌, ◌≡◌, ◌≢◌, ◌<◌, ◌⊎◌, List, [], ◌∷◌, Option, none, some,
  if◌then◌else◌, Eq, lookup, get_or, length, arith, refl, ap, sym, ◌∙◌, replicate, Bool-cases, inl,
  inr, length-replicate, if_rule, some_inj, Option-cases,
}
use halo.HashMap.{HashMap, Grants, all_entries, copy_entry, copy_entries, grow, with_entry, has_key}
use halo.HashMap.Chain.{either, Distinct, lookup-append, Distinct-append}
use halo.HashMap.Buckets.{IsPlaced, look, with_entry-IsPlaced, look-with_entry}

either-none {κ} : {V : Type κ} (o : Option V) → either o none ≡ o
either-none none = refl
either-none (some v) = refl

module _ {ℓ κ} {K : Type ℓ} {V : Type κ} ⦃eq : Eq K⦄ where
  all_entries-none :
      (j : K) (cs : List (List (K × V)))
      → ((i : ℕ) → lookup j (get_or cs i []) ≡ none)
      → lookup j (all_entries cs) ≡ none
  all_entries-none j [] h = refl
  all_entries-none j (c ∷ cs) h =
      lookup-append j c (all_entries cs) ∙ rw (h 0) (all_entries-none j cs (λ i. h (suc i)))

  all_entries_only :
      (j : K) (cs : List (List (K × V))) (n : ℕ)
      → ((i : ℕ) → i ≢ n → lookup j (get_or cs i []) ≡ none)
      → lookup j (all_entries cs) ≡ lookup j (get_or cs n [])
  all_entries_only j [] n h = refl
  all_entries_only j (c ∷ cs) zero h =
      lookup-append j c (all_entries cs)
      ∙ rw (all_entries-none j cs (λ i. h (suc i) (omega arith))) (either-none (lookup j c))
  all_entries_only j (c ∷ cs) (suc n) h =
      lookup-append j c (all_entries cs)
      ∙ rw (h 0 (omega arith)) (all_entries_only j cs n (λ i ne. h (suc i) (omega arith)))

  abbrev Apart : List (List (K × V)) → Type (ℓ ⊔ κ)
  Apart cs =
      (i n : ℕ) (k : K)
      → i ≢ n
      → lookup k (get_or cs i []) ≢ none
      → lookup k (get_or cs n []) ≡ none

  Distinct-all_entries :
      (cs : List (List (K × V)))
      → ((i : ℕ) → Distinct (get_or cs i []))
      → Apart cs
      → Distinct (all_entries cs)
  Distinct-all_entries [] d a = tt
  Distinct-all_entries (c ∷ cs) d a =
      Distinct-append c (all_entries cs) (d 0)
        (Distinct-all_entries cs (λ i. d (suc i)) (λ i n k ne. a (suc i) (suc n) k (omega arith)))
        (λ k h. all_entries-none k cs (λ i. a 0 (suc i) k (omega arith) h))

pub none-ne-some {ℓ} : {A : Type ℓ} {a : A} → ◌≡◌ {A = Option A} none (some a) → ⊥
none-ne-some h = cc

one_of {ℓ} :
    {A : Type ℓ} (a b : Bool) (r s w : A)
    → (if a then some r else if b then some s else none) ≡ some w
    → (w ≡ r) ⊎ (w ≡ s)
one_of true b r s w h = inl (sym (some_inj h))
one_of false true r s w h = inr (sym (some_inj h))
one_of false false r s w h = absurd (none-ne-some h)

module _ {ℓ κ} {K : Type ℓ} {V : Type κ} ⦃eq : Eq K⦄ where
  -- An entry ahead of the others, which do not have its key.
  looks_cons :
      (k : K) (x : V) (es : List (K × V)) (o : Option V) (j : K)
      → lookup k es ≡ none
      → either (lookup j es) (if eq.beq k j then some x else o)
        ≡ either (if eq.beq k j then some x else lookup j es) o
  looks_cons k x es o j h = elim (Bool-cases (eq.beq k j)) [
    | inl same ↦
        let e : lookup j es ≡ none = ap (λ i. lookup i es) (sym ((eq.beq_iff k j).0 same)) ∙ h in
        rw (same, e) refl
    | inr other ↦ rw other refl
  ]

module _ {ℓ κ} {K : Type ℓ} {V : Type κ} ⦃eq : Eq K⦄ (hash : K → ℕ) where
  pub lookup-all_entries :
      (j : K) (b : List (List (K × V))) → IsPlaced hash b → lookup j (all_entries b) ≡ look hash j b
  lookup-all_entries j b v = all_entries_only j b _ (λ i ne. v.placed i j ne)

  pub all_entries-Distinct : (b : List (List (K × V))) → IsPlaced hash b → Distinct (all_entries b)
  all_entries-Distinct b v =
      Distinct-all_entries b v.distinct
        (λ i n k ne h. v.placed n k (λ e. h (v.placed i k (λ g. ne (g ∙ sym e)))))

  pub copy_entries-none :
      (copies : ℕ → Bool) (es : List (K × V)) → copy_entries hash copies es none ≡ none
  unfolding copy_entries
  copy_entries-none copies [] = refl
  copy_entries-none copies ((k, v) ∷ es) = refl

  -- The new table has what was copied, and then what it had.
  record Copied (es : List (K × V)) (t u : HashMap K V) : Type (ℓ ⊔ κ) where
    placed : IsPlaced hash u.bucket
    looks : (j : K) → look hash j u.bucket ≡ either (lookup j es) (look hash j t.bucket)

  copy_entry_bucket :
      (copies : ℕ → Bool) (k : K) (x : V) (t w : HashMap K V)
      → copy_entry hash copies k x t ≡ some w
      → w.bucket ≡ with_entry hash k x t.bucket
  copy_entry_bucket copies k x t w h =
      elim (one_of (has_key (look hash k t.bucket)) (copies t.len) _ _ w h) [
        | inl e ↦ ap HashMap.bucket e
        | inr e ↦ ap HashMap.bucket e
      ]

  copy_entries-Copied :
      (copies : ℕ → Bool) (es : List (K × V)) (t u : HashMap K V)
      → IsPlaced hash t.bucket
      → Distinct es
      → copy_entries hash copies es (some t) ≡ some u
      → Copied es t u
  unfolding copy_entries
  copy_entries-Copied copies [] t u v d h =
      let e : t ≡ u = some_inj h in
      record {
        placed = rw (← e) v;
        looks = λ j. ap (λ (m : HashMap K V). look hash j m.bucket) (sym e);
      }
  copy_entries-Copied copies ((k, x) ∷ es) t u v d h =
      elim (Option-cases (copy_entry hash copies k x t)) [
        | inl e ↦ absurd (
            none-ne-some
              (sym (copy_entries-none copies es) ∙ ap (copy_entries hash copies es) (sym e) ∙ h))
        | inr (w, e) ↦
            let b : w.bucket ≡ with_entry hash k x t.bucket = copy_entry_bucket copies k x t w e in
            let p : IsPlaced hash w.bucket = rw b (with_entry-IsPlaced hash t.bucket v k x) in
            let r =
              copy_entries-Copied copies es w u p d.1
                (ap (copy_entries hash copies es) (sym e) ∙ h) in
            record {
              placed = r.placed;
              looks = λ j.
                  r.looks j
                  ∙ ap (either (lookup j es))
                      (ap (look hash j) b ∙ look-with_entry hash t.bucket v k x j)
                  ∙ looks_cons k x es (look hash j t.bucket) j d.0;
            }
      ]

  empty_chain : (n i : ℕ) → ◌≡◌ {A = List (K × V)} (get_or (replicate n []) i []) []
  empty_chain zero i = refl
  empty_chain (suc n) zero = refl
  empty_chain (suc n) (suc i) = empty_chain n i

  pub empty-IsPlaced : (n : ℕ) → 0 < n → IsPlaced {V = V} hash (replicate n [])
  empty-IsPlaced n h = record {
    buckets = rw (length-replicate {A = List (K × V)} n []) h;
    distinct = λ i. rw (empty_chain n i) tt;
    placed = λ i k ne. ap (lookup k) (empty_chain n i);
  }

  pub look-empty : (n : ℕ) (j : K) → look {V = V} hash j (replicate n []) ≡ none
  look-empty n j = ap (lookup j) (empty_chain n _)

  -- A table that has switched, or that could not grow, finds what it found before.
  pub record SameMap (m n : HashMap K V) : Type (ℓ ⊔ κ) where
    pub placed : IsPlaced hash n.bucket
    pub looks : (j : K) → look hash j n.bucket ≡ look hash j m.bucket

  pub grow-SameMap :
      (grants : Grants) (m : HashMap K V) → IsPlaced hash m.bucket → SameMap m (grow hash grants m)
  unfolding grow
  grow-SameMap grants m v =
      let t : HashMap K V = record { bucket = replicate (length m.bucket * 2) []; len = 0 } in
      let o : Option (HashMap K V) =
        copy_entries hash grants.copies (all_entries m.bucket) (some t) in
      if_rule (SameMap m) grants.table
        (λ _. elim (Option-cases o) [
          | inl e ↦ rw e (record { placed = v; looks = λ j. refl })
          | inr (u, e) ↦
              let r =
                copy_entries-Copied grants.copies (all_entries m.bucket) t u
                  (empty-IsPlaced (length m.bucket * 2) (omega (arith, v.buckets)))
                  (all_entries-Distinct m.bucket v) e in
              rw e (record {
                placed = r.placed;
                looks = λ j.
                    r.looks j
                    ∙ ap (either (lookup j (all_entries m.bucket)))
                        (look-empty (length m.bucket * 2) j)
                    ∙ either-none (lookup j (all_entries m.bucket))
                    ∙ lookup-all_entries j m.bucket v;
              })
        ])
        (λ _. record { placed = v; looks = λ j. refl })
