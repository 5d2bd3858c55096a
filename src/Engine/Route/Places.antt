-- ===== src/Engine/Route/Places.antt =====
-- engine/ipv4_engine.go: the trie as a map from prefixes to route lists, and UpdateRoute on it.
use halo.Base.{
  ℕ, Bool, zero, suc, true, false, ◌+◌, ◌≡◌, List, [], ◌∷◌, Option, none, some, ◌&&◌, if◌then◌else◌,
  arith, refl, ap,
}
use halo.Protocol.Utils.{Ipv4Addr}
use halo.Engine.Route.{
  TrieNode, nil, node, RouteEntry, bit, bool_eq, mask_size, replaced, update_node, update_route,
}

-- The bits of an address from bit `i` on.
abbrev pub path : Ipv4Addr → ℕ → ℕ → List Bool
path ip i zero = []
path ip i (suc n) = bit ip i ∷ path ip (i + 1) n

-- The list that is stored at a prefix; `none` where the node or its list is nil.
abbrev pub routes_at : List Bool → TrieNode → Option (List RouteEntry)
routes_at bits nil = none
routes_at [] (node routes left right) = routes
routes_at (true ∷ bits) (node routes left right) = routes_at bits right
routes_at (false ∷ bits) (node routes left right) = routes_at bits left

abbrev pub bits_eq : List Bool → List Bool → Bool
bits_eq [] [] = true
bits_eq [] (c ∷ cs) = false
bits_eq (b ∷ bs) [] = false
bits_eq (b ∷ bs) (c ∷ cs) = bool_eq b c && bits_eq bs cs

-- The prefix of a route: as many bits of its destination as its mask has.
abbrev pub prefix : RouteEntry → List Bool
prefix r = path r.dst_ip_addr 0 (mask_size r.network_mask)

routes_at-update_node :
    (old : RouteEntry) (new : Option RouteEntry) (n i : ℕ) (t : TrieNode) (q : List Bool)
    → routes_at q (update_node old new n i t) ≡ (
        if bits_eq q (path old.dst_ip_addr i n)
        then some (replaced old new (routes_at q t))
        else routes_at q t)
unfolding update_node
routes_at-update_node old new zero i nil [] = refl
routes_at-update_node old new zero i nil (true ∷ q) = refl
routes_at-update_node old new zero i nil (false ∷ q) = refl
routes_at-update_node old new zero i (node routes l r) [] = refl
routes_at-update_node old new zero i (node routes l r) (true ∷ q) = refl
routes_at-update_node old new zero i (node routes l r) (false ∷ q) = refl
routes_at-update_node old new (suc n) i nil [] = ground arith
routes_at-update_node old new (suc n) i nil (true ∷ q) =
    ground (arith, routes_at-update_node old new n (i + 1) nil q)
routes_at-update_node old new (suc n) i nil (false ∷ q) =
    ground (arith, routes_at-update_node old new n (i + 1) nil q)
routes_at-update_node old new (suc n) i (node routes l r) [] = ground arith
routes_at-update_node old new (suc n) i (node routes l r) (true ∷ q) =
    ground (arith, routes_at-update_node old new n (i + 1) r q)
routes_at-update_node old new (suc n) i (node routes l r) (false ∷ q) =
    ground (arith, routes_at-update_node old new n (i + 1) l q)

-- An update rewrites the list at the prefix of the old route, and no other prefix changes: the
-- entries that equal the old route are dropped there, and the new one is appended if there is one.
pub routes_at-update_route :
    (t : TrieNode) (old : RouteEntry) (new : Option RouteEntry) (q : List Bool)
    → routes_at q (update_route t old new)
      ≡ (if bits_eq q (prefix old) then some (replaced old new (routes_at q t)) else routes_at q t)
unfolding update_route
routes_at-update_route t old new q =
    routes_at-update_node old new (mask_size old.network_mask) 0 t q

pub bits_eq_refl : (q : List Bool) → bits_eq q q ≡ true
bits_eq_refl [] = refl
bits_eq_refl (true ∷ q) = bits_eq_refl q
bits_eq_refl (false ∷ q) = bits_eq_refl q

pub bits_eq_eq : (p q : List Bool) → bits_eq p q ≡ true → p ≡ q
bits_eq_eq [] [] h = refl
bits_eq_eq [] (c ∷ q) h = cc
bits_eq_eq (b ∷ p) [] h = cc
bits_eq_eq (true ∷ p) (true ∷ q) h = ap (λ t. true ∷ t) (bits_eq_eq p q h)
bits_eq_eq (true ∷ p) (false ∷ q) h = cc
bits_eq_eq (false ∷ p) (true ∷ q) h = cc
bits_eq_eq (false ∷ p) (false ∷ q) h = ap (λ t. false ∷ t) (bits_eq_eq p q h)
