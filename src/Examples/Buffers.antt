-- ===== src/Examples/Buffers.antt =====
-- The byte ring, the array list and the fixed strings at concrete contents.
use Prim.Native.Nat.{min}
use halo.ArrayList.{add, del_item, offset, out_of_range}
use halo.ArrayList.Items.{IsArrayList, add-items, del_item-items, items}
use halo.Base.{
  [], at, drop, false, if◌then◌else◌, length, none, pos, suc, take, true, ℕ, ◌*◌, ◌++◌, ◌+◌, ◌-◌,
  ◌<◌, ◌∷◌, ◌≡◌, ◌≤◌, ◌⊎◌,
}
use halo.Examples.Data.{
  full_list, full_list-IsArrayList, three, turned_ring, turned_ring-IsRing, zeroed, zeroed-length,
}
use halo.Stack.Buffer.{read, write}
use halo.Stack.Buffer.Queue.{IsRing, queued}
use halo.Stack.Buffer.Read.{read-queued}
use halo.Stack.Buffer.Write.{write-queued}

write-queued_example :
    let n = (write turned_ring three).0 in
    let c = (write turned_ring three).1 in
    (n ≡ min (length three) (length turned_ring.bytes - turned_ring.size))
    × IsRing c
    × (length c.bytes ≡ length turned_ring.bytes)
    × (c.size ≡ turned_ring.size + n)
    × ((i : ℕ) → i < turned_ring.size → queued c i ≡ queued turned_ring i)
    × ((i : ℕ) → i < n → queued c (turned_ring.size + i) ≡ at three i)
write-queued_example = write-queued turned_ring three turned_ring-IsRing

read-queued_example :
    let n = (read turned_ring three).0 in
    let out = (read turned_ring three).1 in
    let c = (read turned_ring three).2 in
    (n ≡ min (length three) turned_ring.size)
    × (length out ≡ length three)
    × ((i : ℕ) → i < n → at out i ≡ queued turned_ring i)
    × ((i : ℕ) → n ≤ i → at out i ≡ at three i)
    × IsRing c
    × (c.size ≡ turned_ring.size - n)
    × ((i : ℕ) → queued c i ≡ queued turned_ring (n + i))
read-queued_example = read-queued turned_ring three turned_ring-IsRing

add-items_example :
    (((add zeroed full_list 9).0 ≡ true)
      × IsArrayList (add zeroed full_list 9).1
      × (items (add zeroed full_list 9).1 ≡ items full_list ++ (9 ∷ [])))
    ⊎ ((full_list.len ≡ full_list.cap)
        × (zeroed (full_list.cap * 2) ≡ none)
        × (add zeroed full_list 9 ≡ (false, full_list)))
add-items_example = add-items zeroed full_list 9 full_list-IsArrayList zeroed-length

del_item-items_example :
    IsArrayList (del_item full_list (pos 2))
    × (items (del_item full_list (pos 2)) ≡ (
        if out_of_range full_list (pos 2)
        then items full_list
        else take (offset (pos 2)) (items full_list)
          ++ drop (suc (offset (pos 2))) (items full_list)))
del_item-items_example = del_item-items full_list (pos 2) full_list-IsArrayList
