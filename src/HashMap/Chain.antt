-- ===== src/HashMap/Chain.antt =====
-- hashmap/hashmap.go: one chain of entries, and several one behind the other.
use halo.Base.{
  ◌≡◌, ◌≢◌, List, [], ◌∷◌, ◌++◌, Option, none, some, if◌then◌else◌, Eq, lookup, insert,
  lookup-insert, arith, refl, ◌∙◌, beq_refl,
}
use halo.HashMap.{without}

-- The first of two answers that there is.
abbrev pub either {κ} : {V : Type κ} → Option V → Option V → Option V
either (some v) o = some v
either none o = o

module _ {ℓ κ} {K : Type ℓ} {V : Type κ} ⦃eq : Eq K⦄ where
  -- Every key once.
  abbrev pub Distinct : List (K × V) → Type (ℓ ⊔ κ)
  Distinct [] = Unit
  Distinct ((k, v) ∷ c) = (lookup k c ≡ none) × Distinct c

  pub lookup-append :
      (j : K) (c d : List (K × V)) → lookup j (c ++ d) ≡ either (lookup j c) (lookup j d)
  lookup-append j [] d = refl
  lookup-append j ((k, v) ∷ c) d = ground (arith, lookup-append j c d)

  pub Distinct-insert : (k : K) (v : V) (c : List (K × V)) → Distinct c → Distinct (insert k v c)
  Distinct-insert k v [] d = (refl, tt)
  Distinct-insert k v ((i, w) ∷ c) d =
      ground (arith, Distinct-insert k v c, lookup-insert k i v c, eq.beq_iff i k, eq.beq_iff k i)

  pub lookup-without :
      (k j : K) (c : List (K × V))
      → Distinct c
      → lookup j (without k c) ≡ (if eq.beq k j then none else lookup j c)
  lookup-without k j [] d = ground arith
  lookup-without k j ((i, w) ∷ c) d =
      ground (arith, lookup-without k j c, eq.beq_iff i k, eq.beq_iff k j, eq.beq_iff i j)

  pub Distinct-without : (k : K) (c : List (K × V)) → Distinct c → Distinct (without k c)
  Distinct-without k [] d = tt
  Distinct-without k ((i, w) ∷ c) d =
      ground (arith, Distinct-without k c, lookup-without k i c, eq.beq_iff i k, eq.beq_iff k i)

  pub Distinct-append :
      (c d : List (K × V))
      → Distinct c
      → Distinct d
      → ((k : K) → lookup k c ≢ none → lookup k d ≡ none)
      → Distinct (c ++ d)
  Distinct-append [] d x y apart = y
  Distinct-append ((k, v) ∷ c) d x y apart = (
    lookup-append k c d ∙ rw x.0 (apart k (ground (arith, beq_refl k))),
    Distinct-append c d x.1 y (λ j h. apart j (ground arith)),
  )
