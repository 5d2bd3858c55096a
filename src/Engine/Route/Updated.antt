-- ===== src/Engine/Route/Updated.antt =====
-- engine/ipv4_engine.go: UpdateRoute against what it means for the routes of a prefix.
use text.Mathlib.TextEquality.{eq_iff}
use mathlib.Core.List.{append-nil}
use halo.Base.{
  ℕ, Bool, zero, suc, true, false, ◌+◌, ◌*◌, ◌^◌, ◌<◌, ◌≤◌, ◌≡◌, ◌≢◌, ◌⊎◌, ◌↔◌, List, [], ◌∷◌, ◌++◌,
  Option, none, some, if◌then◌else◌, u32, arith, refl, ap, sym, ◌∙◌, inl, inr, Bool-cases, ◌==◌,
  ==_iff, ltb, ltb→lt,
}
use halo.Protocol.Utils.{Ipv4Addr, ip_addr_to_u}
use halo.Protocol.Ipv4.Laws.{IsIpv4Addr}
use halo.Engine.Route.{
  TrieNode, RouteEntry, ip_eq, bool_eq, same_route, drop_route, with_new, replaced, mask_loop,
  mask_size, update_route,
}
use halo.Engine.Route.Places.{
  path, prefix, routes_at, bits_eq, bits_eq_refl, bits_eq_eq, routes_at-update_route,
}

-- Two entries of the same route: the next hops count where there is one.
abbrev pub Same : RouteEntry → RouteEntry → Type 0
Same entry old =
    (entry.dst_ip_addr ≡ old.dst_ip_addr)
    × (entry.network_mask ≡ old.network_mask)
    × (entry.has_next_hop ≡ old.has_next_hop)
    × ((entry.has_next_hop ≡ false) ⊎ (entry.next_hop ≡ old.next_hop))
    × (entry.net_if ≡ old.net_if)

-- `kept` is a list without the entries of a route, in the same order.
pub data Drops (old : RouteEntry) : List RouteEntry → List RouteEntry → Type 0 where
  done : Drops old [] []
  dropped :
      {entry : RouteEntry} {l kept : List RouteEntry}
      → Same entry old
      → Drops old l kept
      → Drops old (entry ∷ l) kept
  kept_on :
      {entry : RouteEntry} {l kept : List RouteEntry}
      → ¬ Same entry old
      → Drops old l kept
      → Drops old (entry ∷ l) (entry ∷ kept)

ip_eq_iff : (a b : Ipv4Addr) → (ip_eq a b ≡ true) ↔ (a ≡ b)
ip_eq_iff a b = ground arith

bool_eq_iff : (a b : Bool) → (bool_eq a b ≡ true) ↔ (a ≡ b)
bool_eq_iff true b = ground arith
bool_eq_iff false b = ground arith

same_route_iff : (entry old : RouteEntry) → (same_route entry old ≡ true) ↔ Same entry old
unfolding same_route
same_route_iff entry old = ground (
  arith,
  ip_eq_iff entry.dst_ip_addr old.dst_ip_addr,
  ip_eq_iff entry.network_mask old.network_mask,
  bool_eq_iff entry.has_next_hop old.has_next_hop,
  ip_eq_iff entry.next_hop old.next_hop,
  eq_iff entry.net_if old.net_if,
)

drop_route-Drops : (old : RouteEntry) (l : List RouteEntry) → Drops old l (drop_route old l)
unfolding drop_route
drop_route-Drops old [] = done
drop_route-Drops old (entry ∷ l) = elim (Bool-cases (same_route entry old)) [
  | inl y ↦ rw y (dropped ((same_route_iff entry old).0 y) (drop_route-Drops old l))
  | inr n ↦ rw n (
      kept_on (λ s. absurd (ground (arith, n, (same_route_iff entry old).1 s)))
        (drop_route-Drops old l))
]

-- The loop finds the number of bits of a mask up to its last one.
mask_loop_lem :
    (u n rounds size : ℕ)
    → size < n
    → n ≤ rounds + size
    → u32 (u * 2 ^ n) ≡ 0
    → ((k : ℕ) → k < n → u32 (u * 2 ^ k) ≢ 0)
    → mask_loop rounds u (size + 1) size ≡ n
unfolding mask_loop
mask_loop_lem u n zero size a b e h = absurd (omega arith)
mask_loop_lem u n (suc rounds) size a b e h = elim (Bool-cases (u32 (u * 2 ^ (size + 1)) == 0)) [
  | inl y ↦ rw y (elim (Bool-cases (ltb (size + 1) n)) [
    | inl z ↦ absurd (h (size + 1) (ltb→lt (size + 1) n z) ((==_iff _ 0).0 y))
    | inr z ↦ ground arith
  ])
  | inr d ↦ elim (Bool-cases (size + 1 == n)) [
    | inl z ↦
        let same : size + 1 ≡ n = (==_iff (size + 1) n).0 z in
        absurd (ground (arith, d, ap (λ k. u32 (u * 2 ^ k)) same ∙ e))
    | inr z ↦ rw d (mask_loop_lem u n rounds (size + 1) (ground arith) (omega arith) e h)
  ]
]

masked :
    (u n : ℕ)
    → u < 4294967296
    → u32 (u * 2 ^ n) ≡ 0
    → ((k : ℕ) → k < n → u32 (u * 2 ^ k) ≢ 0)
    → (if u == 0 then 0 else mask_loop 32 u 1 0) ≡ n
masked u n v e h = elim (Bool-cases (ltb 0 n)) [
  | inl y ↦
      let first : u32 (u * 1) ≢ 0 = h 0 (ltb→lt 0 n y) in
      let some_one : (u == 0) ≡ false = ground (arith, first) in
      rw some_one (mask_loop_lem u n 32 0 (ltb→lt 0 n y) (short (Bool-cases (ltb 32 n))) e h)
  | inr z ↦
      let least : n ≡ 0 = ground arith in
      let low : u32 (u * 1) ≡ 0 = ap (λ k. u32 (u * 2 ^ k)) (sym least) ∙ e in
      let nothing : (u == 0) ≡ true = ground (arith, low) in rw nothing (sym least)
]
  where
    short : (ltb 32 n ≡ true) ⊎ (ltb 32 n ≡ false) → n ≤ 32 + 0
    short (inl z) = absurd (h 32 (ltb→lt 32 n z) (omega arith))
    short (inr z) = ground arith

ip_addr_bound : (m : Ipv4Addr) → IsIpv4Addr m → ip_addr_to_u m < 4294967296
unfolding ip_addr_to_u
ip_addr_bound m v = omega (arith, v.0, v.1, v.2, v.3)

mask_size_lem :
    (m : Ipv4Addr) (n : ℕ)
    → IsIpv4Addr m
    → u32 (ip_addr_to_u m * 2 ^ n) ≡ 0
    → ((k : ℕ) → k < n → u32 (ip_addr_to_u m * 2 ^ k) ≢ 0)
    → mask_size m ≡ n
unfolding mask_size
mask_size_lem m n v e h = masked (ip_addr_to_u m) n (ip_addr_bound m v) e h

-- What an update adds to a list.
abbrev pub listed : Option RouteEntry → List RouteEntry
listed none = []
listed (some r) = r ∷ []

with_new-listed : (new : Option RouteEntry) (l : List RouteEntry) → with_new new l ≡ l ++ listed new
with_new-listed none l = sym (append-nil l)
with_new-listed (some r) l = refl

-- The routes that are stored for some bits; none where the trie has no node or no list.
abbrev pub or_empty : Option (List RouteEntry) → List RouteEntry
or_empty none = []
or_empty (some l) = l

abbrev pub stored : List Bool → TrieNode → List RouteEntry
stored q t = or_empty (routes_at q t)

replaced_lem :
    (old : RouteEntry) (new : Option RouteEntry) (o : Option (List RouteEntry))
    → replaced old new o ≡ drop_route old (or_empty o) ++ listed new
replaced_lem old new none = with_new-listed new (drop_route old [])
replaced_lem old new (some l) = with_new-listed new (drop_route old l)

-- An update of a route whose mask, of four bytes, has its last one as bit `n`, counted from 1 (0 for
-- no bit), drops from the list at the first `n` bits of its destination exactly the entries of that
-- route, those with the same destination, mask, interface and next hop, or both without a next hop,
-- keeps the others in their order, and appends the new entry if there is one. No list at other bits
-- changes.
pub update_route-Drops :
    (t : TrieNode) (old : RouteEntry) (new : Option RouteEntry) (n : ℕ)
    → IsIpv4Addr old.network_mask
    → u32 (ip_addr_to_u old.network_mask * 2 ^ n) ≡ 0
    → ((k : ℕ) → k < n → u32 (ip_addr_to_u old.network_mask * 2 ^ k) ≢ 0)
    → ((kept : List RouteEntry) × Drops old (stored (path old.dst_ip_addr 0 n) t) kept
        × (routes_at (path old.dst_ip_addr 0 n) (update_route t old new)
            ≡ some (kept ++ listed new)))
      × ((q : List Bool)
          → (q ≡ path old.dst_ip_addr 0 n) ⊎ (routes_at q (update_route t old new) ≡ routes_at q t))
update_route-Drops t old new n v e h =
    let size = mask_size_lem old.network_mask n v e h in
    let here : prefix old ≡ path old.dst_ip_addr 0 n = ap (path old.dst_ip_addr 0) size in
    let q = path old.dst_ip_addr 0 n in
    (
      (
        drop_route old (stored q t),
        drop_route-Drops old (stored q t),
        routes_at-update_route t old new q
            ∙ ap (λ b. if b then some (replaced old new (routes_at q t)) else routes_at q t)
                (ap (bits_eq q) here ∙ bits_eq_refl q)
            ∙ ap some (replaced_lem old new (routes_at q t)),
      ),
      λ p. elim (Bool-cases (bits_eq p (prefix old))) [
        | inl y ↦ inl (bits_eq_eq p (prefix old) y ∙ here)
        | inr x ↦ inr (
            routes_at-update_route t old new p
            ∙ ap (λ b. if b then some (replaced old new (routes_at p t)) else routes_at p t) x)
      ],
    )
