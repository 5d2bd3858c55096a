-- ===== src/Examples/Tables.antt =====
-- The hash table at a concrete table of numbers, which grows at its next entry.
use halo.Base.{ℕ, true, ◌≡◌, ◌||◌, ◌==◌, [], ◌∷◌, none, if◌then◌else◌, arith, nat_key}
use halo.HashMap.{HashMap, Grants, get, set_value, del, has_key}
use halo.HashMap.Laws.{Stores, get-set_value, get-del}
use halo.HashMap.Size.{IsTable, set_value-IsTable, empty-IsTable}
use halo.HashMap.Buckets.{IsPlaced}
use halo.Base.{not}

abbrev own_hash : ℕ → ℕ
own_hash k = k

abbrev granted : Grants
granted = record { entry = true; table = true; copies = λ n. true }

-- The third copy of a growth gets no memory.
abbrev short : Grants
short = record { entry = true; table = true; copies = λ n. not (n == 2) }

abbrev six_entries : HashMap ℕ ℕ
six_entries = record {
  bucket =
      ((0, 9) ∷ (8, 80) ∷ [])
      ∷ ((1, 10) ∷ [])
      ∷ ((2, 20) ∷ [])
      ∷ ((3, 30) ∷ [])
      ∷ ((4, 40) ∷ [])
      ∷ []
      ∷ []
      ∷ []
      ∷ [];
  len = 6;
}

six_entries-IsTable : IsTable own_hash six_entries
unfolding set_value
six_entries-IsTable = set_value-IsTable own_hash granted 4 40 _ (
    set_value-IsTable own_hash granted 3 30 _ (
      set_value-IsTable own_hash granted 2 20 _ (
        set_value-IsTable own_hash granted 1 10 _ (
          set_value-IsTable own_hash granted 8 80 _
            (set_value-IsTable own_hash granted 0 9 _ (empty-IsTable own_hash 8 (omega arith)))))))

get-set_value_example :
    Stores own_hash 16 5 six_entries
      (set_value own_hash short 16 5 six_entries).0
      (set_value own_hash short 16 5 six_entries).1
    × ((set_value own_hash short 16 5 six_entries).0
        ≡ (has_key (get own_hash 16 six_entries) || short.entry))
get-set_value_example = get-set_value own_hash short 16 5 six_entries six_entries-IsTable.placed

get-del_example :
    IsPlaced own_hash (del own_hash 0 six_entries).bucket
    × ((j : ℕ)
        → get own_hash j (del own_hash 0 six_entries)
          ≡ (if nat_key.beq 0 j then none else get own_hash j six_entries))
get-del_example = get-del own_hash 0 six_entries six_entries-IsTable.placed

set_value-IsTable_example : IsTable own_hash (set_value own_hash granted 16 5 six_entries).1
set_value-IsTable_example = set_value-IsTable own_hash granted 16 5 six_entries six_entries-IsTable
