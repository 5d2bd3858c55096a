-- ===== src/ArrayList/Items.antt =====
-- list/array_list.go: the operations on the list of items that an ArrayList holds.
use halo.Base.{
  ℕ, Bool, true, false, zero, suc, ◌+◌, ◌-◌, ◌*◌, ◌≡◌, ◌≤◌, ◌<◌, ◌⊎◌, inl, inr, List, [], ◌∷◌, ◌++◌,
  Option, none, some, if◌then◌else◌, leb, length, take, drop, get_or, set, copy, length-set,
  length-copy, take-copy_zero, take-set, ℤ, pos, negsuc, refl, ap, ◌∙◌, sym, arith, Bool-cases,
  Option-cases,
}
use halo.ArrayList.{
  at_least_init_cap, new_array_list_with_cap, ArrayList, append_at, add, set_item, get_item,
  del_item, out_of_range, offset,
}

enough : (cap : ℤ) → 0 < at_least_init_cap cap
enough (pos cap) = ground arith
enough (negsuc n) = omega arith

module _ {ℓ} {A : Type ℓ} where
  abbrev pub items : ArrayList A → List A
  items a = take a.len a.cells

  -- The block has the capacity, at least one cell, and the items fit.
  pub record IsArrayList (a : ArrayList A) : Type 0 where
    pub block : length a.cells ≡ a.cap
    pub room : 0 < a.cap
    pub fits : a.len ≤ a.cap

  take-set_end :
      (n : ℕ) (xs : List A) (v : A)
      → n < length xs
      → take (suc n) (set xs n v) ≡ take n xs ++ (v ∷ [])
  take-set_end n [] v h = absurd (omega arith)
  take-set_end zero (x ∷ xs) v h = refl
  take-set_end (suc n) (x ∷ xs) v h = ap (λ t. x ∷ t) (take-set_end n xs v (omega arith))

  get_or-take_full :
      (n : ℕ) (xs : List A) (i : ℕ) (z : A)
      → get_or (take n xs) i z ≡ (if leb n i then z else get_or xs i z)
  get_or-take_full zero xs i z = ground arith
  get_or-take_full (suc n) [] i z = ground arith
  get_or-take_full (suc n) (x ∷ xs) zero z = ground arith
  get_or-take_full (suc n) (x ∷ xs) (suc i) z = get_or-take_full n xs i z ∙ ground arith

  take-copy_del :
      (m i k : ℕ) (xs : List A)
      → m ≡ k + i
      → suc m ≤ length xs
      → take m (copy xs i (take k (drop (suc i) xs)))
        ≡ take i (take (suc m) xs) ++ drop (suc i) (take (suc m) xs)
  take-copy_del m i k [] e h = absurd (omega arith)
  take-copy_del m zero k (x ∷ xs) e h =
      let same : k ≡ m = omega arith in
      rw same (take-copy_zero m m (x ∷ xs) xs (omega arith) (omega arith) (omega arith))
  take-copy_del zero (suc i) k (x ∷ xs) e h = absurd (omega arith)
  take-copy_del (suc m) (suc i) k (x ∷ xs) e h =
      ap (λ t. x ∷ t) (take-copy_del m i k xs (omega arith) (omega arith))

  -- A new array has no items, and is well formed when the block that the allocator gives has the
  -- size that was asked for. It is not made only when the allocator refuses one of the two blocks.
  pub new_array_list-items :
      (head : Bool) (malloc : ℕ → Option (List A)) (cap : ℤ)
      → ((n : ℕ) (block : List A) → malloc n ≡ some block → length block ≡ n)
      → ((a : ArrayList A) × (new_array_list_with_cap head malloc cap ≡ some a)
          × IsArrayList a
          × (items a ≡ []))
        ⊎ ((new_array_list_with_cap head malloc cap ≡ none)
            × ((head ≡ false) ⊎ (malloc (at_least_init_cap cap) ≡ none)))
  unfolding new_array_list_with_cap
  new_array_list-items false malloc cap h = inr (refl, inl refl)
  new_array_list-items true malloc cap h = elim (Option-cases (malloc (at_least_init_cap cap))) [
    | inl n ↦ rw n (inr (refl, inr refl))
    | inr (block, s) ↦
        rw s (
          inl
            (_, refl, record { block = h _ block s; room = enough cap; fits = omega arith }, refl))
  ]

  -- Reading an index gives the item there, and the zero value outside of the items.
  pub get_item-items :
      (z : A) (a : ArrayList A) (index : ℤ)
      → get_item z a index ≡ (if out_of_range a index then z else get_or (items a) (offset index) z)
  unfolding get_item
  get_item-items z a (negsuc n) = refl
  get_item-items z a (pos i) = elim (Bool-cases (leb a.len i)) [
    | inl e ↦ rw e refl
    | inr e ↦ rw e (sym (get_or-take_full a.len a.cells i z ∙ rw e refl))
  ]

  -- Writing an index replaces the item there, an index outside of the items changes nothing, and
  -- the array stays well formed.
  pub set_item-items :
      (a : ArrayList A) (index : ℤ) (v : A)
      → IsArrayList a
      → IsArrayList (set_item a index v)
        × (items (set_item a index v)
            ≡ (if out_of_range a index then items a else set (items a) (offset index) v))
  unfolding set_item
  set_item-items a (negsuc n) v w = (w, refl)
  set_item-items a (pos i) v w = elim (Bool-cases (leb a.len i)) [
    | inl e ↦ rw e (w, refl)
    | inr e ↦ rw e (
      record { block = length-set a.cells i v ∙ w.block; room = w.room; fits = w.fits },
      take-set a.len a.cells i v,
    )
  ]

  deleted :
      (a : ArrayList A) (i : ℕ)
      → IsArrayList a
      → i < a.len
      → take (a.len - 1) (copy a.cells i (take (a.len - i - 1) (drop (suc i) a.cells)))
        ≡ take i (items a) ++ drop (suc i) (items a)
  deleted a i w h =
      let last : suc (a.len - 1) ≡ a.len = omega arith in
      rw last at (
        take-copy_del (a.len - 1) i (a.len - i - 1) a.cells (omega arith)
          (omega (arith, w.fits, w.block)))

  -- Deleting an index removes the item there and keeps the order of the others, an index outside
  -- of the items changes nothing, and the array stays well formed.
  pub del_item-items :
      (a : ArrayList A) (index : ℤ)
      → IsArrayList a
      → IsArrayList (del_item a index)
        × (items (del_item a index) ≡ (
            if out_of_range a index
            then items a
            else take (offset index) (items a) ++ drop (suc (offset index)) (items a)))
  unfolding del_item
  del_item-items a (negsuc n) w = (w, refl)
  del_item-items a (pos i) w = elim (Bool-cases (leb a.len i)) [
    | inl e ↦ rw e (w, refl)
    | inr e ↦ rw e (
      record {
        block = length-copy a.cells i (take (a.len - i - 1) (drop (suc i) a.cells)) ∙ w.block;
        room = w.room;
        fits = omega (arith, w.fits);
      },
      deleted a i w (ground arith),
    )
  ]

  append_at-items :
      (a : ArrayList A) (v : A)
      → IsArrayList a
      → a.len < a.cap
      → IsArrayList (append_at a v).1 × (items (append_at a v).1 ≡ items a ++ (v ∷ []))
  append_at-items a v w h = (
    record { block = length-set a.cells a.len v ∙ w.block; room = w.room; fits = h },
    take-set_end a.len a.cells v (omega (arith, w.block)),
  )

  -- The array after its block was replaced by one of twice the size.
  abbrev grown : ArrayList A → List A → ArrayList A
  grown a block = record a { cells = copy block 0 (take a.cap a.cells); cap = a.cap * 2 }

  grown-items :
      (a : ArrayList A) (block : List A)
      → IsArrayList a
      → length block ≡ a.cap * 2
      → IsArrayList (grown a block) × (items (grown a block) ≡ items a)
  grown-items a block w h = (
    record {
      block = length-copy block 0 (take a.cap a.cells) ∙ h;
      room = omega (arith, w.room);
      fits = omega (arith, w.fits);
    },
    take-copy_zero a.len a.cap block a.cells w.fits (omega (arith, w.fits))
        (omega (arith, w.fits, w.block)),
  )

  -- Adding puts the item at the end, or, exactly when the block is full and the allocator gives no
  -- larger one, fails and changes nothing. An array that was well formed stays so when a block that
  -- the allocator gives has the size that was asked for.
  pub add-items :
      (malloc : ℕ → Option (List A)) (a : ArrayList A) (v : A)
      → IsArrayList a
      → ((n : ℕ) (block : List A) → malloc n ≡ some block → length block ≡ n)
      → (((add malloc a v).0 ≡ true)
          × IsArrayList (add malloc a v).1
          × (items (add malloc a v).1 ≡ items a ++ (v ∷ [])))
        ⊎ ((a.len ≡ a.cap) × (malloc (a.cap * 2) ≡ none) × (add malloc a v ≡ (false, a)))
  unfolding add
  add-items malloc a v w h = elim (Bool-cases (leb a.cap a.len)) [
    | inr e ↦
        let (ok_added, added) = append_at-items a v w (ground arith) in
        rw e (inl (refl, ok_added, added))
    | inl e ↦ rw e (elim (Option-cases (malloc (a.cap * 2))) [
      | inl n ↦ rw n (inr (ground (arith, w.fits), refl, refl))
      | inr (block, s) ↦
          let (ok_grown, same) = grown-items a block w (h (a.cap * 2) block s) in
          let (ok_added, added) =
            append_at-items (grown a block) v ok_grown (omega (arith, w.fits, w.room)) in
          rw s (inl (refl, ok_added, added ∙ ap (λ t. t ++ (v ∷ [])) same))
    ])
  ]
