-- ===== src/Engine/Route/Deleted.antt =====
-- engine/ipv4_engine.go: FindRoute after routes were added and deleted.
use halo.Base.{ℕ, Bool, zero, suc, false, ◌+◌, ◌≡◌, ◌≤◌, ◌<◌, ◌∙◌, ◌⊎◌, inl, inr, refl, ap, sym}
use halo.Base.{List, [], ◌∷◌, Option, none, some, some_inj, take, length, get_or, All, All-append}
use halo.Base.{Bool-cases, arith}
use mathlib.Core.Path.{subst}
use halo.Protocol.Utils.{Ipv4Addr}
use halo.Engine.Route.{
  TrieNode, RouteEntry, bit, find_route, conclude, choose, route, panics, same_route, drop_route,
  entries, with_new, replaced, update_route, add_route, delete_route,
}
use halo.Engine.Route.Places.{
  path, prefix, routes_at, bits_eq, bits_eq_refl, bits_eq_eq, routes_at-update_route,
}
use halo.Engine.Route.Longest.{IsLongest, find_route-IsLongest}

-- Every stored route stands at the prefix of its own destination and mask.
abbrev pub IsPlaced : TrieNode → Type 0
IsPlaced t =
    (q : List Bool) (l : List RouteEntry) → routes_at q t ≡ some l → All (λ r. prefix r ≡ q) l

drop_route-All :
    (old : RouteEntry) (q : List Bool) (l : List RouteEntry)
    → All (λ r. prefix r ≡ q) l
    → All (λ r. prefix r ≡ q) (drop_route old l)
unfolding drop_route
drop_route-All old q [] h = tt
drop_route-All old q (e ∷ l) h = elim (Bool-cases (same_route e old)) [
  | inl s ↦ rw s (drop_route-All old q l h.1)
  | inr s ↦ rw s (h.0, drop_route-All old q l h.1)
]

update_route-IsPlaced :
    (t : TrieNode) (old : RouteEntry) (new : Option RouteEntry)
    → ((l : List RouteEntry)
        → All (λ r. prefix r ≡ prefix old) l
        → All (λ r. prefix r ≡ prefix old) (with_new new l))
    → IsPlaced t
    → IsPlaced (update_route t old new)
update_route-IsPlaced t old new more placed q l e = elim (Bool-cases (bits_eq q (prefix old))) [
  | inr n ↦ placed q l (sym (rw n at (routes_at-update_route t old new q)) ∙ e)
  | inl y ↦
      let here : q ≡ prefix old = bits_eq_eq q (prefix old) y in
      let stored : some (replaced old new (routes_at q t)) ≡ some l =
        sym (rw y at (routes_at-update_route t old new q)) ∙ e in
      subst (All (λ r. prefix r ≡ q)) (some_inj stored) (
        subst (λ p. All (λ r. prefix r ≡ p) (replaced old new (routes_at q t))) (sym here)
          (more (drop_route old (entries (routes_at q t))) (
            drop_route-All old (prefix old) (entries (routes_at q t)) (
              subst (λ p. All (λ r. prefix r ≡ p) (entries (routes_at q t))) here
                (kept (routes_at q t) refl)))))
]
  where
    kept : (o : Option (List RouteEntry)) → routes_at q t ≡ o → All (λ r. prefix r ≡ q) (entries o)
    kept none k = tt
    kept (some rs) k = placed q rs k

-- In a table where every route stands at the prefix of its own destination and mask, the same holds
-- after a route was added.
pub add_route-IsPlaced : (t : TrieNode) (r : RouteEntry) → IsPlaced t → IsPlaced (add_route t r)
unfolding add_route
add_route-IsPlaced t r placed =
    update_route-IsPlaced t r (some r)
      (λ l h. All-append (λ e. prefix e ≡ prefix r) l (r ∷ []) h (refl, tt)) placed

-- In a table where every route stands at the prefix of its own destination and mask, the same holds
-- after a route was deleted.
pub delete_route-IsPlaced :
    (t : TrieNode) (r : RouteEntry) → IsPlaced t → IsPlaced (delete_route t r)
unfolding delete_route
delete_route-IsPlaced t r placed = update_route-IsPlaced t r none (λ l h. h) placed

get_or-All {ℓ} :
    (P : RouteEntry → Type ℓ) (l : List RouteEntry) (i : ℕ) (d : RouteEntry)
    → All P l
    → P d
    → P (get_or l i d)
get_or-All P [] i d h k = k
get_or-All P (x ∷ l) zero d h k = h.0
get_or-All P (x ∷ l) (suc i) d h k = get_or-All P l i d h.1 k

route_injective : (a b : RouteEntry) → route a ≡ route b → a ≡ b
route_injective a b h = cc

choose-All {ℓ} :
    (P : RouteEntry → Type ℓ) (h : ℕ) (l : List RouteEntry) (r : RouteEntry)
    → All P l
    → choose h l ≡ route r
    → P r
choose-All P h [] r a e = absurd (cc)
choose-All P h (x ∷ l) r a e = subst P (route_injective _ r e) (get_or-All P (x ∷ l) _ x a a.0)

take-path : (ip : Ipv4Addr) (n m i : ℕ) → n ≤ m → take n (path ip i m) ≡ path ip i n
take-path ip zero m i h = refl
take-path ip (suc n) zero i h = absurd (omega arith)
take-path ip (suc n) (suc m) i h = ap (λ t. bit ip i ∷ t) (take-path ip n m (i + 1) (omega arith))

length-path : (ip : Ipv4Addr) (n i : ℕ) → length (path ip i n) ≡ n
length-path ip zero i = refl
length-path ip (suc n) i = ap suc (length-path ip n (i + 1))

-- In a table where every route stands at its prefix, a route that FindRoute returns matches the
-- address: its prefix is the first bits of it.
pub find_route_matches :
    (hash : Ipv4Addr → ℕ) (t : TrieNode) (ip : Ipv4Addr) (r : RouteEntry)
    → IsPlaced t
    → find_route hash t ip ≡ route r
    → (n : ℕ) × (n ≤ 32) × (prefix r ≡ path ip 0 n)
find_route_matches hash t ip r placed e =
    let (best, longest, found) = find_route-IsLongest hash t ip in go best longest (sym found ∙ e)
  where
    go :
        (best : Option (List RouteEntry))
        → IsLongest (path ip 0 32) t best
        → conclude (hash ip) best ≡ route r
        → (n : ℕ) × (n ≤ 32) × (prefix r ≡ path ip 0 n)
    go none longest k = absurd (cc)
    go (some l) (n, le, at_n, above) k =
        let short : n ≤ 32 = omega (arith, length-path ip 32 0) in
        (
          n,
          short,
          choose-All (λ x. prefix x ≡ take n (path ip 0 32)) (hash ip) l r
                (placed (take n (path ip 0 32)) l at_n) k
              ∙ take-path ip n 32 0 short,
        )

lt_cases : (n m : ℕ) → (n < m) ⊎ ((n ≡ m) ⊎ (m < n))
lt_cases n m = ground arith

-- At most one list is the longest match.
IsLongest-unique :
    (bits : List Bool) (t : TrieNode) (a b : Option (List RouteEntry))
    → IsLongest bits t a
    → IsLongest bits t b
    → a ≡ b
IsLongest-unique bits t none none h k = refl
IsLongest-unique bits t none (some l) h (n, le, e, above) = absurd (cc (h n le))
IsLongest-unique bits t (some l) none (n, le, e, above) h = absurd (cc (h n le))
IsLongest-unique bits t (some l) (some k) (n, le, e, above) (m, le', e', above') =
    elim (lt_cases n m) [
      | inl p ↦ absurd (cc (above m p le'))
      | inr (inl p) ↦ sym e ∙ ap (λ x. routes_at (take x bits) t) p ∙ e'
      | inr (inr p) ↦ absurd (cc (above' n p le))
    ]

length-take-path : (ip : Ipv4Addr) (n m i : ℕ) → n ≤ m → length (take n (path ip i m)) ≡ n
length-take-path ip n m i h = ap length (take-path ip n m i h) ∙ length-path ip n i

module _ (hash : Ipv4Addr → ℕ) (t : TrieNode) (r : RouteEntry) (ip : Ipv4Addr) (n : ℕ)
    (le : n ≤ 32) where
  emptied_IsLongest :
      prefix r ≡ path ip 0 n
      → drop_route r (entries (routes_at (prefix r) t)) ≡ []
      → ((m : ℕ) → n < m → m ≤ 32 → routes_at (path ip 0 m) t ≡ none)
      → IsLongest (path ip 0 32) (delete_route t r) (some [])
  unfolding delete_route
  emptied_IsLongest at_ip last above = (
    n,
    omega (arith, length-path ip 32 0),
    ap (λ x. routes_at x (delete_route t r)) (take-path ip n 32 0 le ∙ sym at_ip)
        ∙ rw (bits_eq_refl (prefix r)) at (routes_at-update_route t r none (prefix r))
        ∙ ap some last,
    λ m p q.
        ap (λ x. routes_at x (delete_route t r)) (take-path ip m 32 0 (longer m q))
        ∙ rw (differs m p) at (routes_at-update_route t r none (path ip 0 m))
        ∙ above m p (longer m q),
  )
    where
      longer : (m : ℕ) → m ≤ length (path ip 0 32) → m ≤ 32
      longer m q = omega (arith, length-path ip 32 0)

      differs : (m : ℕ) → n < m → bits_eq (path ip 0 m) (prefix r) ≡ false
      differs m p = elim (Bool-cases (bits_eq (path ip 0 m) (prefix r))) [
        | inr e ↦ e
        | inl e ↦
            let same : length (path ip 0 m) ≡ length (path ip 0 n) =
              ap length (bits_eq_eq (path ip 0 m) (prefix r) e ∙ at_ip) in
            absurd (omega (arith, same, length-path ip m 0, length-path ip n 0))
      ]

  -- After the last route of a prefix was deleted, FindRoute panics on every address of which that
  -- prefix, of at most 32 bits, is the longest one stored: the empty list that is left is not nil, and the choice from
  -- it divides by its length.
  pub find_route-delete_last :
      prefix r ≡ path ip 0 n
      → drop_route r (entries (routes_at (prefix r) t)) ≡ []
      → ((m : ℕ) → n < m → m ≤ 32 → routes_at (path ip 0 m) t ≡ none)
      → find_route hash (delete_route t r) ip ≡ panics
  find_route-delete_last at_ip last above =
      let (best, longest, found) = find_route-IsLongest hash (delete_route t r) ip in
      found
      ∙ ap (conclude (hash ip)) (
          IsLongest-unique (path ip 0 32) (delete_route t r) best (some []) longest
            (emptied_IsLongest at_ip last above))
