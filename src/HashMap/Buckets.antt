-- ===== src/HashMap/Buckets.antt =====
-- hashmap/hashmap.go: the buckets, and what is in which.
use halo.Base.{
  ℕ, false, ◌%◌, ◌≡◌, ◌≢◌, ◌<◌, List, [], Option, none, some, if◌then◌else◌, Eq, lookup, insert,
  lookup-insert, get_or, set, length, length-set, get_or-set_self, get_or-set_ne, arith, ap, ◌∙◌,
  Bool-cases, if_rule, inl, inr, ◌==◌, ==_iff,
}
use native.Mathlib.Nat.{mod-lt}
use halo.HashMap.{index, chain_of, with_entry, without}
use halo.HashMap.Chain.{Distinct, Distinct-insert, lookup-without, Distinct-without}

pub get_or-set {ℓ} :
    {A : Type ℓ} (xs : List A) (i j : ℕ) (v d : A)
    → i < length xs
    → get_or (set xs i v) j d ≡ (if i == j then v else get_or xs j d)
get_or-set xs i j v d h = elim (Bool-cases (i == j)) [
  | inl same ↦
      let e : j ≡ i = ground arith in
      rw same (ap (λ n. get_or (set xs i v) n d) e ∙ get_or-set_self xs i v d h)
  | inr other ↦ rw other (get_or-set_ne xs i j v d (ground arith))
]

module _ {ℓ κ} {K : Type ℓ} {V : Type κ} ⦃eq : Eq K⦄ (hash : K → ℕ) where
  -- Each key is in the chain of its hash, once.
  pub record IsPlaced (b : List (List (K × V))) : Type (ℓ ⊔ κ) where
    pub buckets : 0 < length b
    pub distinct : (i : ℕ) → Distinct (get_or b i [])
    pub placed : (i : ℕ) (k : K) → i ≢ index hash k b → lookup k (get_or b i []) ≡ none

  abbrev pub look : K → List (List (K × V)) → Option V
  look k b = lookup k (chain_of hash k b)

  index_lt : (k : K) (b : List (List (K × V))) → 0 < length b → index hash k b < length b
  index_lt k b h = mod-lt (hash k) (omega arith)

  same_chain :
      (k j : K) (b : List (List (K × V)))
      → index hash k b ≡ index hash j b
      → chain_of hash k b ≡ chain_of hash j b
  same_chain k j b e = ap (λ i. get_or b i []) e

  index_ne :
      (k j : K) (b : List (List (K × V))) → (index hash k b == index hash j b) ≡ false → k ≢ j
  index_ne k j b h e = absurd (ground (arith, ap (λ x. index hash x b) e))

  -- The answer of a chain that differs from the old one for `k` at most.
  by_chain :
      (b : List (List (K × V))) (k j : K) (o a : Option V)
      → a ≡ (if eq.beq k j then o else lookup j (chain_of hash k b))
      → (if index hash k b == index hash j b then a else look j b)
        ≡ (if eq.beq k j then o else look j b)
  by_chain b k j o a h = elim (Bool-cases (index hash k b == index hash j b)) [
    | inl same ↦ rw same (
        h ∙ ap (λ c. if eq.beq k j then o else lookup j c) (same_chain k j b ((==_iff _ _).0 same)))
    | inr other ↦ elim (Bool-cases (eq.beq k j)) [
      | inl e ↦ absurd (index_ne k j b other ((eq.beq_iff k j).0 e))
      | inr e ↦ rw (other, e)
    ]
  ]

  -- A new chain in the place of the chain of a key.
  module _ (b : List (List (K × V))) (v : IsPlaced b) (k : K) (c : List (K × V)) where
    abbrev changed : List (List (K × V))
    changed = set b (index hash k b) c

    index-changed : (j : K) → index hash j changed ≡ index hash j b
    index-changed j = ap (λ n. hash j % n) (length-set b (index hash k b) c)

    chain-changed :
        (i : ℕ) → get_or changed i [] ≡ (if index hash k b == i then c else get_or b i [])
    chain-changed i = get_or-set b (index hash k b) i c [] (index_lt k b v.buckets)

    pub look-changed :
        (j : K)
        → look j changed ≡ (if index hash k b == index hash j b then lookup j c else look j b)
    look-changed j =
        ap (λ i. lookup j (get_or changed i [])) (index-changed j)
        ∙ ap (lookup j) (chain-changed (index hash j b))
        ∙ ground arith

    pub changed-IsPlaced :
        Distinct c
        → ((j : K) → index hash k b ≢ index hash j b → lookup j c ≡ none)
        → IsPlaced changed
    changed-IsPlaced d p = record {
      buckets = rw (length-set b (index hash k b) c) v.buckets;
      distinct = λ i.
          rw (chain-changed i)
            (if_rule Distinct (index hash k b == i) (λ _. d) (λ _. v.distinct i));
      placed = λ i j h. rw (chain-changed i) (
          if_rule (λ x. lookup j x ≡ none) (index hash k b == i)
            (λ e. p j (ground (arith, index-changed j)))
            (λ _. v.placed i j (ground (arith, index-changed j))));
    }

  -- Storing a value.
  module _ (b : List (List (K × V))) (v : IsPlaced b) (k : K) (x : V) where
    pub with_entry-IsPlaced : IsPlaced (with_entry hash k x b)
    with_entry-IsPlaced =
        changed-IsPlaced b v k (insert k x (chain_of hash k b))
          (Distinct-insert k x (chain_of hash k b) (v.distinct (index hash k b)))
          (λ j h. ground (
            arith,
            lookup-insert k j x (chain_of hash k b),
            eq.beq_iff k j,
            v.placed (index hash k b) j,
          ))

    pub look-with_entry :
        (j : K) → look j (with_entry hash k x b) ≡ (if eq.beq k j then some x else look j b)
    look-with_entry j =
        look-changed b v k (insert k x (chain_of hash k b)) j
        ∙ by_chain b k j (some x) _ (lookup-insert k j x (chain_of hash k b))

  -- Removing a key.
  module _ (b : List (List (K × V))) (v : IsPlaced b) (k : K) where
    abbrev removed : List (List (K × V))
    removed = set b (index hash k b) (without k (chain_of hash k b))

    pub removed-IsPlaced : IsPlaced removed
    removed-IsPlaced =
        changed-IsPlaced b v k (without k (chain_of hash k b))
          (Distinct-without k (chain_of hash k b) (v.distinct (index hash k b)))
          (λ j h. ground (
            arith,
            lookup-without k j (chain_of hash k b) (v.distinct (index hash k b)),
            eq.beq_iff k j,
            v.placed (index hash k b) j,
          ))

    pub look-removed : (j : K) → look j removed ≡ (if eq.beq k j then none else look j b)
    look-removed j =
        look-changed b v k (without k (chain_of hash k b)) j
        ∙ by_chain b k j none _
            (lookup-without k j (chain_of hash k b) (v.distinct (index hash k b)))
