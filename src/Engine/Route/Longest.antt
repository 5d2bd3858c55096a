-- ===== src/Engine/Route/Longest.antt =====
-- engine/ipv4_engine.go: FindRoute against the longest matching prefix.
use halo.Base.{
  ℕ, Bool, zero, suc, true, false, ◌+◌, ◌≡◌, ◌≤◌, ◌<◌, ◌∙◌, List, [], ◌∷◌, Option, none, some, take,
  length, arith, refl, ap,
}
use halo.Protocol.Utils.{Ipv4Addr}
use halo.Engine.Route.{TrieNode, nil, node, RouteEntry, find_node, find_route, match_node, conclude}
use halo.Engine.Route.Places.{path, routes_at}

-- The list at the longest stored prefix of some bits.
abbrev deepest : List Bool → TrieNode → Option (List RouteEntry)
deepest bits nil = none
deepest [] (node routes left right) = routes
deepest (true ∷ bits) (node routes left right) = match_node (deepest bits right) routes
deepest (false ∷ bits) (node routes left right) = match_node (deepest bits left) routes

match_assoc :
    (a b c : Option (List RouteEntry))
    → match_node a (match_node b c) ≡ match_node (match_node a b) c
match_assoc none b c = refl
match_assoc (some l) b c = refl

find_node-deepest :
    (ip : Ipv4Addr) (n i : ℕ) (t : TrieNode) (last : Option (List RouteEntry))
    → find_node ip n i t last ≡ match_node (deepest (path ip i n) t) last
unfolding find_node
find_node-deepest ip zero i nil last = refl
find_node-deepest ip (suc n) i nil last = refl
find_node-deepest ip zero i (node routes l r) last = refl
find_node-deepest ip (suc n) i (node routes l r) last =
    let below = path ip (i + 1) n in
    ground (
      arith,
      find_node-deepest ip n (i + 1) l (match_node routes last),
      find_node-deepest ip n (i + 1) r (match_node routes last),
      match_assoc (deepest below l) routes last,
      match_assoc (deepest below r) routes last,
    )

-- `best` is what a trie stores for some bits: the list at a prefix of them, with nothing stored at
-- any longer one, or nothing if no prefix has a list.
abbrev pub IsLongest : List Bool → TrieNode → Option (List RouteEntry) → Type 0
IsLongest bits t none = (m : ℕ) → m ≤ length bits → routes_at (take m bits) t ≡ none
IsLongest bits t (some l) =
    (n : ℕ) × (n ≤ length bits)
    × (routes_at (take n bits) t ≡ some l)
    × ((m : ℕ) → n < m → m ≤ length bits → routes_at (take m bits) t ≡ none)

take-nil : (m : ℕ) → take {A = Bool} m [] ≡ []
take-nil zero = refl
take-nil (suc m) = refl

join-IsLongest :
    (b : Bool) (bits : List Bool) (routes : Option (List RouteEntry)) (l r child : TrieNode)
    → ((q : List Bool) → routes_at (b ∷ q) (node routes l r) ≡ routes_at q child)
    → (best : Option (List RouteEntry)) → IsLongest bits child best
    → IsLongest (b ∷ bits) (node routes l r) (match_node best routes)
join-IsLongest b bits none l r child step none h = λ m k. up m k
  where
    up : (m : ℕ) → m ≤ suc (length bits) → routes_at (take m (b ∷ bits)) (node none l r) ≡ none
    up zero k = refl
    up (suc m) k = step (take m bits) ∙ h m (omega arith)
join-IsLongest b bits (some rs) l r child step none h = (0, omega arith, refl, λ m k j. up m k j)
  where
    up :
        (m : ℕ)
        → 0 < m
        → m ≤ suc (length bits)
        → routes_at (take m (b ∷ bits)) (node (some rs) l r) ≡ none
    up zero k j = absurd (omega arith)
    up (suc m) k j = step (take m bits) ∙ h m (omega arith)
join-IsLongest b bits routes l r child step (some best) (n, k, e, h) =
    (suc n, omega arith, step (take n bits) ∙ e, λ m p q. up m p q)
  where
    up :
        (m : ℕ)
        → suc n < m
        → m ≤ suc (length bits)
        → routes_at (take m (b ∷ bits)) (node routes l r) ≡ none
    up zero p q = absurd (omega arith)
    up (suc m) p q = step (take m bits) ∙ h m (omega arith) (omega arith)

deepest-IsLongest : (bits : List Bool) (t : TrieNode) → IsLongest bits t (deepest bits t)
deepest-IsLongest bits nil = λ m k. refl
deepest-IsLongest [] (node none l r) = λ m k. rw (take-nil m)
deepest-IsLongest [] (node (some rs) l r) = (0, omega arith, refl, λ m p q. absurd (omega arith))
deepest-IsLongest (true ∷ bits) (node routes l r) =
    join-IsLongest true bits routes l r r (λ q. refl) (deepest bits r) (deepest-IsLongest bits r)
deepest-IsLongest (false ∷ bits) (node routes l r) =
    join-IsLongest false bits routes l r l (λ q. refl) (deepest bits l) (deepest-IsLongest bits l)

match_none : (o : Option (List RouteEntry)) → match_node o none ≡ o
match_none none = refl
match_none (some l) = refl

-- FindRoute takes the list that is stored at the longest prefix of the address which has a list,
-- and chooses from it by the hash of the address; it reports no route if no prefix has a list.
pub find_route-IsLongest :
    (hash : Ipv4Addr → ℕ) (t : TrieNode) (ip : Ipv4Addr)
    → (best : Option (List RouteEntry)) × IsLongest (path ip 0 32) t best
      × (find_route hash t ip ≡ conclude (hash ip) best)
unfolding find_route
find_route-IsLongest hash t ip =
    let best = deepest (path ip 0 32) t in
    (
      best,
      deepest-IsLongest (path ip 0 32) t,
      ap (conclude (hash ip)) (find_node-deepest ip 32 0 t none ∙ match_none best),
    )
