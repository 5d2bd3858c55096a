-- ===== src/Engine/Route.antt =====
-- engine/ipv4_engine.go: the route table, a binary trie over the bits of the destination. Its two
-- locks make each operation one step. The trie shares no node, so it is a tree here.
pub mod Places
pub mod Updated
pub mod Longest
pub mod Deleted
use Prim.Native.String.{String}
use text.Mathlib.Text.{◌==◌ as str_eq}
use halo.Base.{
  ℕ, Bool, zero, suc, true, false, ◌+◌, ◌-◌, ◌*◌, ◌/◌, ◌%◌, ◌^◌, List, [], ◌∷◌, ◌++◌, Option, none,
  some, length, get_or, ltb, ◌==◌, ◌&&◌, ◌||◌, not, if◌then◌else◌, u32, shr,
}
use halo.Protocol.Utils.{Ipv4Addr, ip_addr_to_u}

pub record RouteEntry : Type 0 where
  pub dst_ip_addr : Ipv4Addr
  pub network_mask : Ipv4Addr
  pub next_hop : Ipv4Addr
  pub has_next_hop : Bool
  pub net_if : String

-- A nil pointer, or a node. A nil RouteList is `none`, which an empty one is not.
pub data TrieNode : Type 0 where
  nil : TrieNode
  node : Option (List RouteEntry) → TrieNode → TrieNode → TrieNode

-- `ip[i]`
abbrev pub octet : Ipv4Addr → ℕ → ℕ
octet ip i = get_or (ip.a0 ∷ ip.a1 ∷ ip.a2 ∷ ip.a3 ∷ []) i 0

-- `(ip[i/8] >> (7 - uint(i%8))) & 1`, and whether it is one.
abbrev pub bit : Ipv4Addr → ℕ → Bool
bit ip i = not (shr (octet ip (i / 8)) (7 - i % 8) % 2 == 0)

-- `for i := 1; i <= 32; i++ { maskSize++; if networkMaskU<<i == 0 { break } }`
unfoldable pub mask_loop : ℕ → ℕ → ℕ → ℕ → ℕ
mask_loop zero mask i size = size
mask_loop (suc rounds) mask i size =
    let rest = mask_loop rounds mask (i + 1) (size + 1) in
    if u32 (mask * 2 ^ i) == 0 then size + 1 else rest

unfoldable pub mask_size : Ipv4Addr → ℕ
unfolding mask_loop ip_addr_to_u
mask_size m = if ip_addr_to_u m == 0 then 0 else mask_loop 32 (ip_addr_to_u m) 1 0

abbrev pub ip_eq : Ipv4Addr → Ipv4Addr → Bool
ip_eq a b = a.a0 == b.a0 && (a.a1 == b.a1 && (a.a2 == b.a2 && a.a3 == b.a3))

abbrev pub bool_eq : Bool → Bool → Bool
bool_eq true b = b
bool_eq false b = not b

-- The condition under which UpdateRoute drops an entry.
unfoldable pub same_route : RouteEntry → RouteEntry → Bool
same_route entry old =
    ip_eq entry.dst_ip_addr old.dst_ip_addr
    && (ip_eq entry.network_mask old.network_mask
        && (bool_eq entry.has_next_hop old.has_next_hop
            && ((not entry.has_next_hop || ip_eq entry.next_hop old.next_hop)
                && str_eq entry.net_if old.net_if)))

-- The loop that copies the entries which are kept.
unfoldable pub drop_route : RouteEntry → List RouteEntry → List RouteEntry
drop_route old [] = []
drop_route old (entry ∷ rest) =
    if same_route entry old then drop_route old rest else entry ∷ drop_route old rest

-- Ranging over a nil list makes no round.
abbrev pub entries : Option (List RouteEntry) → List RouteEntry
entries none = []
entries (some l) = l

-- `if newRoute != nil { newRouteList = append(newRouteList, newRoute) }`
abbrev pub with_new : Option RouteEntry → List RouteEntry → List RouteEntry
with_new none l = l
with_new (some r) l = l ++ (r ∷ [])

-- The list that UpdateRoute stores: never nil.
abbrev pub replaced : RouteEntry → Option RouteEntry → Option (List RouteEntry) → List RouteEntry
replaced old new routes = with_new new (drop_route old (entries routes))

-- The descent of UpdateRoute from bit `i` on, with `rounds` bits to go. It creates missing nodes.
unfoldable pub update_node : RouteEntry → Option RouteEntry → ℕ → ℕ → TrieNode → TrieNode
update_node old new zero i nil = node (some (replaced old new none)) nil nil
update_node old new zero i (node routes left right) =
    node (some (replaced old new routes)) left right
update_node old new (suc rounds) i nil =
    let child = update_node old new rounds (i + 1) nil in
    if bit old.dst_ip_addr i then node none nil child else node none child nil
update_node old new (suc rounds) i (node routes left right) =
    let left' = update_node old new rounds (i + 1) left in
    let right' = update_node old new rounds (i + 1) right in
    if bit old.dst_ip_addr i then node routes left right' else node routes left' right

unfoldable pub update_route : TrieNode → RouteEntry → Option RouteEntry → TrieNode
unfolding update_node mask_size
update_route root old new = update_node old new (mask_size old.network_mask) 0 root

unfoldable pub add_route : TrieNode → RouteEntry → TrieNode
unfolding update_route
add_route root route = update_route root route (some route)

unfoldable pub delete_route : TrieNode → RouteEntry → TrieNode
unfolding update_route
delete_route root route = update_route root route none

-- `if node.RouteList != nil { lastMatch = node.RouteList }`
abbrev pub match_node :
    Option (List RouteEntry) → Option (List RouteEntry) → Option (List RouteEntry)
match_node none last = last
match_node (some l) last = some l

-- The descent of FindRoute. A nil child breaks the loop; the test behind the loop is that of a
-- round with none to go.
unfoldable pub find_node :
    Ipv4Addr → ℕ → ℕ → TrieNode → Option (List RouteEntry) → Option (List RouteEntry)
find_node ip rounds i nil last = last
find_node ip zero i (node routes left right) last = match_node routes last
find_node ip (suc rounds) i (node routes left right) last =
    let left' = find_node ip rounds (i + 1) left (match_node routes last) in
    let right' = find_node ip rounds (i + 1) right (match_node routes last) in
    if bit ip i then right' else left'

-- `panics` is the run-time panic of `% 0`.
pub data Lookup : Type 0 where
  no_route panics : Lookup
  route : RouteEntry → Lookup

-- `lastMatch[ipHash.Sum32()%uint32(len(lastMatch))]`
abbrev pub choose : ℕ → List RouteEntry → Lookup
choose h [] = panics
choose h (r ∷ rs) = route (get_or (r ∷ rs) (h % u32 (length (r ∷ rs))) r)

-- What follows the loop of FindRoute.
abbrev pub conclude : ℕ → Option (List RouteEntry) → Lookup
conclude h none = no_route
conclude h (some l) = choose h l

-- `hash` stands for the FNV-1a sum of hash/fnv.
unfoldable pub find_route : (Ipv4Addr → ℕ) → TrieNode → Ipv4Addr → Lookup
unfolding find_node
find_route hash root ip = conclude (hash ip) (find_node ip 32 0 root none)

-- foreachNode: the list of the node, then those of its left and of its right child.
unfoldable pub foreach_node : TrieNode → List RouteEntry
foreach_node nil = []
foreach_node (node routes left right) = entries routes ++ (foreach_node left ++ foreach_node right)

unfoldable pub list_route : TrieNode → List RouteEntry
unfolding foreach_node
list_route root = foreach_node root

-- FindRoute of NetIf: the next hop, the interface and whether there is a next hop. `none` is the
-- panic.
abbrev pub net_if_route : Lookup → Option (Ipv4Addr × String × Bool)
net_if_route no_route = some (record { a0 = 0; a1 = 0; a2 = 0; a3 = 0 }, "", false)
net_if_route panics = none
net_if_route (route r) = some (r.next_hop, r.net_if, r.has_next_hop)
