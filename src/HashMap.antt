-- ===== src/HashMap.antt =====
-- hashmap/hashmap.go: the hash table. A bucket is the chain of its entries, in order; the doubly
-- linked list behind it is walked forwards only. The hash of a key, which the key type gives, is
-- the argument `hash`, and what the allocator answers is the argument `grants`.
pub mod Chain
pub mod Buckets
pub mod Growth
pub mod Laws
pub mod Size
use halo.Base.{
  ℕ, Bool, true, false, suc, ◌+◌, ◌-◌, ◌*◌, ◌/◌, ◌%◌, List, [], ◌∷◌, ◌++◌, Option, none, some,
  if◌then◌else◌, ltb, length, get_or, set, replicate, Eq, lookup, insert,
}

-- The answers to the allocations of one call: an entry, a table of buckets, and the entry that is
-- copied into that table behind the given number of others.
pub record Grants : Type 0 where
  pub entry : Bool
  pub table : Bool
  pub copies : ℕ → Bool

pub record HashMap {ℓ κ} (K : Type ℓ) (V : Type κ) : Type (ℓ ⊔ κ) where
  pub bucket : List (List (K × V))
  pub len : ℕ

-- `initBucketSize`
abbrev pub init_bucket_size : ℕ
init_bucket_size = 8

abbrev pub has_key {κ} : {V : Type κ} → Option V → Bool
has_key none = false
has_key (some v) = true

module _ {ℓ κ} {K : Type ℓ} {V : Type κ} where
  -- `NewHashMapWithCap`; the answers are for the struct and for the table.
  unfoldable pub new_hash_map : Bool → Bool → ℕ → Option (HashMap K V)
  new_hash_map struct table cap =
      let n : ℕ = if ltb cap init_bucket_size then init_bucket_size else cap in
      if struct
      then (if table then some (record { bucket = replicate n []; len = 0 }) else none)
      else none

  -- The entries in the order of `For`.
  abbrev pub all_entries : List (List (K × V)) → List (K × V)
  all_entries [] = []
  all_entries (c ∷ cs) = c ++ all_entries cs

  -- What `For` visits while the function answers true.
  unfoldable pub visited : (K → V → Bool) → List (K × V) → List (K × V)
  visited fn [] = []
  visited fn ((k, v) ∷ es) = if fn k v then (k, v) ∷ visited fn es else (k, v) ∷ []

  unfoldable pub for_each : (K → V → Bool) → HashMap K V → List (K × V)
  unfolding visited
  for_each fn m = visited fn (all_entries m.bucket)

  unfoldable pub clear : HashMap K V → HashMap K V
  clear m = record { bucket = replicate (length m.bucket) []; len = 0 }

  abbrev pub switched : HashMap K V → Option (HashMap K V) → HashMap K V
  switched m none = m
  switched m (some t) = t

module _ {ℓ κ} {K : Type ℓ} {V : Type κ} ⦃eq : Eq K⦄ where
  -- The chain without the first entry of the key.
  abbrev pub without : K → List (K × V) → List (K × V)
  without k [] = []
  without k ((j, w) ∷ c) = if eq.beq j k then c else (j, w) ∷ without k c

module _ {ℓ κ} {K : Type ℓ} {V : Type κ} ⦃eq : Eq K⦄ (hash : K → ℕ) where
  abbrev pub index : K → List (List (K × V)) → ℕ
  index k b = hash k % length b

  abbrev pub chain_of : K → List (List (K × V)) → List (K × V)
  chain_of k b = get_or b (index k b) []

  unfoldable pub get : K → HashMap K V → Option V
  get k m = lookup k (chain_of k m.bucket)

  -- A key that is in its chain gets the value, another one an entry at its end.
  abbrev pub with_entry : K → V → List (List (K × V)) → List (List (K × V))
  with_entry k v b = set b (index k b) (insert k v (chain_of k b))

  -- One entry of the old table enters the new one; without memory for it the growth fails.
  abbrev pub copy_entry : (ℕ → Bool) → K → V → HashMap K V → Option (HashMap K V)
  copy_entry copies k v t =
      if has_key (lookup k (chain_of k t.bucket))
      then some (record t { bucket = with_entry k v t.bucket })
      else if copies t.len
      then some (record { bucket = with_entry k v t.bucket; len = suc t.len })
      else none

  unfoldable pub copy_entries :
      (ℕ → Bool) → List (K × V) → Option (HashMap K V) → Option (HashMap K V)
  copy_entries copies [] t = t
  copy_entries copies ((k, v) ∷ es) none = none
  copy_entries copies ((k, v) ∷ es) (some t) = copy_entries copies es (copy_entry copies k v t)

  -- `Grow`: a failure leaves the old table.
  unfoldable pub grow : Grants → HashMap K V → HashMap K V
  unfolding copy_entries
  grow grants m =
      if grants.table
      then switched m (
          copy_entries grants.copies (all_entries m.bucket)
            (some (record { bucket = replicate (length m.bucket * 2) []; len = 0 })))
      else m

  -- `if m.len > m.bucket.Len()*3/4 { m.Grow() }`
  abbrev pub grow_if_full : Grants → HashMap K V → HashMap K V
  grow_if_full grants m = if ltb (length m.bucket * 3 / 4) m.len then grow grants m else m

  -- `Set`
  unfoldable pub set_value : Grants → K → V → HashMap K V → Bool × HashMap K V
  unfolding grow
  set_value grants k v m =
      let b = with_entry k v m.bucket in
      if has_key (lookup k (chain_of k m.bucket))
      then (true, record m { bucket = b })
      else if grants.entry
      then (true, grow_if_full grants (record { bucket = b; len = suc m.len }))
      else (false, m)

  -- `Del`
  unfoldable pub del : K → HashMap K V → HashMap K V
  del k m =
      if has_key (lookup k (chain_of k m.bucket))
      then record {
        bucket = set m.bucket (index k m.bucket) (without k (chain_of k m.bucket));
        len = m.len - 1;
      }
      else m
