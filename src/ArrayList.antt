-- ===== src/ArrayList.antt =====
-- list/array_list.go: the growing array over an Allocator. The allocator is code of its own: what a
-- call of it returns, a block of cells or nil, is an argument of the operations. A block is the
-- list of its cells, whatever they hold.
pub mod Items
use halo.Base.{
  ℕ, Bool, true, false, zero, suc, ◌+◌, ◌-◌, ◌*◌, List, [], ◌∷◌, Option, none, some, if◌then◌else◌,
  ltb, leb, not, ◌||◌, length, take, drop, get_or, set, copy, ℤ, pos, negsuc,
}

abbrev pub init_cap : ℕ
init_cap = 8

pub record ArrayList {ℓ} (A : Type ℓ) : Type ℓ where
  pub cells : List A
  pub len : ℕ
  pub cap : ℕ

-- The capacity that NewArrayListWithCap asks for.
abbrev pub at_least_init_cap : ℤ → ℕ
at_least_init_cap (pos cap) = if ltb cap init_cap then init_cap else cap
at_least_init_cap (negsuc n) = init_cap

-- The index once it is known to be in range.
abbrev pub offset : ℤ → ℕ
offset (pos i) = i
offset (negsuc n) = 0

module _ {ℓ} {A : Type ℓ} where
  abbrev pub with_block : Option (List A) → ℕ → Option (ArrayList A)
  with_block none cap = none
  with_block (some cells) cap = some (record { cells = cells; len = 0; cap = cap })

  -- `head` tells whether the block for the ArrayList is granted, `malloc` is the second answer.
  unfoldable pub new_array_list_with_cap : Bool → (ℕ → Option (List A)) → ℤ → Option (ArrayList A)
  new_array_list_with_cap head malloc cap =
      let cap = at_least_init_cap cap in if not head then none else with_block (malloc cap) cap

  abbrev pub append_at : ArrayList A → A → Bool × ArrayList A
  append_at a v = (true, record a { cells = set a.cells a.len v; len = suc a.len })

  abbrev pub add_grown : ArrayList A → A → Option (List A) → Bool × ArrayList A
  add_grown a v none = (false, a)
  add_grown a v (some block) =
      append_at (record a { cells = copy block 0 (take a.cap a.cells); cap = a.cap * 2 }) v

  unfoldable pub add : (ℕ → Option (List A)) → ArrayList A → A → Bool × ArrayList A
  add malloc a v = if leb a.cap a.len then add_grown a v (malloc (a.cap * 2)) else append_at a v

  -- `index < 0 || index >= a.len`
  abbrev pub out_of_range : ArrayList A → ℤ → Bool
  out_of_range a (pos i) = leb a.len i
  out_of_range a (negsuc n) = true

  unfoldable pub set_item : ArrayList A → ℤ → A → ArrayList A
  set_item a index v =
      if out_of_range a index then a else record a { cells = set a.cells (offset index) v }

  -- `z` is the zero value of the type.
  unfoldable pub get_item : A → ArrayList A → ℤ → A
  get_item z a index = if out_of_range a index then z else get_or a.cells (offset index) z

  unfoldable pub del_item : ArrayList A → ℤ → ArrayList A
  del_item a index =
      let i = offset index in
      if out_of_range a index then a else record a {
        cells = copy a.cells i (take (a.len - i - 1) (drop (suc i) a.cells));
        len = a.len - 1;
      }

  -- The loop of For on a callback with a state, which returns `next` with its new state.
  unfoldable pub for_from {κ} :
      {S : Type κ} → (S → ℕ → A → S × Bool) → A → ArrayList A → ℕ → ℕ → S → S
  for_from fn z a zero index s = s
  for_from fn z a (suc left) index s =
      let (t, next) = fn s index (get_item z a (pos index)) in
      let rest = for_from fn z a left (index + 1) t in if next then rest else t

  unfoldable pub for_items {κ} : {S : Type κ} → (S → ℕ → A → S × Bool) → A → ArrayList A → S → S
  for_items fn z a s = for_from fn z a a.len 0 s
