-- ===== src/Engine/Router/Arp.antt =====
-- engine/arp_engine.go: the ARP cache of an interface, and its requests and replies.
use Prim.Native.String.{String}
use halo.Base.{
  ℕ, Bool, true, false, ◌+◌, ◌-◌, ◌^◌, List, [], ◌∷◌, Option, none, some, map, ◌==◌, ◌&&◌, not, ltb,
  if◌then◌else◌, u32, nat_key, lookup, insert,
}
use halo.Base.{ok, err, Result, Parsed}
use halo.Protocol.Utils.{MacAddr, Ipv4Addr, ip_addr_to_u, u_to_ip_addr}
use halo.Protocol.Ethernet.{eth_proto_arp}
use halo.Protocol.Arp.{ArpPkt, ArpError, parse_arp_pkt, build_arp_pkt, arp_request, arp_reply}
use halo.Engine.Route.{ip_eq}
use halo.Engine.Router.{M, ◌>>=◌, ◌>>◌, pure, gets, net_if, put_if, Answers, ArpCache}
use halo.Engine.Router.Link.{tx_ethernet, broadcast_mac_addr}

abbrev pub mac_eq : MacAddr → MacAddr → Bool
mac_eq a b =
    a.m0 == b.m0
    && (a.m1 == b.m1 && (a.m2 == b.m2 && (a.m3 == b.m3 && (a.m4 == b.m4 && a.m5 == b.m5))))

-- A packet that was built goes out; an error is logged.
abbrev pub send_arp : String → MacAddr → Result (Unit {0}) (List ℕ) → M (Unit {0})
send_arp name dst (err e) = pure tt
send_arp name dst (ok arp_pkt) = do done ← tx_ethernet name arp_pkt dst eth_proto_arp; pure tt

unfoldable pub send_arp_req : String → Ipv4Addr → M (Unit {0})
unfolding tx_ethernet
send_arp_req name ip = do
  i ← net_if name
  send_arp name broadcast_mac_addr (
      build_arp_pkt [] (record {
        option = arp_request;
        src_mac = i.mac_addr;
        src_addr = i.base.ip_addr;
        dst_mac = broadcast_mac_addr;
        dst_addr = ip;
      }))

-- SendFreeArp: a request for the interface's own address.
unfoldable pub send_free_arp : String → M (Unit {0})
unfolding send_arp_req
send_free_arp name = do i ← net_if name; send_arp_req name i.base.ip_addr

-- The packet at hand is not queued while the address is asked for.
abbrev pub cached_or_ask : String → Ipv4Addr → Option ArpCache → M (Option ArpCache)
cached_or_ask name ip (some c) = pure (some c)
cached_or_ask name ip none = do send_arp_req name ip; pure none

unfoldable pub get_arp_cache : String → Ipv4Addr → M (Option ArpCache)
unfolding send_arp_req
get_arp_cache name ip = do
  i ← net_if name
  if ip_eq ip i.base.ip_addr
      then pure none
      else cached_or_ask name ip (lookup (ip_addr_to_u ip) i.arp_cache_table)

abbrev pub is_known : Option ArpCache → Bool
is_known none = false
is_known (some c) = true

-- The table after SetArpCache: an entry that is there is changed in place; a new one needs a cell
-- of the allocator and a slot of the table.
abbrev pub arp_table_with : Answers → ℕ → MacAddr → ℕ → List (ℕ × ArpCache) → List (ℕ × ArpCache)
arp_table_with g ip mac now table =
    let entry : ArpCache = record { ip_addr = ip; mac_addr = mac; exp_time = u32 (now + 300) } in
    if is_known (lookup ip table)
    then insert ip entry table
    else if g.arp_cell && g.arp_slot
    then insert ip entry table
    else table

unfoldable pub set_arp_cache : Answers → String → Ipv4Addr → MacAddr → M (Unit {0})
set_arp_cache g name ip mac = do
  i ← net_if name
  now ← gets (λ r. r.time_now)
  put_if name
      (record i { arp_cache_table = arp_table_with g (ip_addr_to_u ip) mac now i.arp_cache_table })

-- The reply to a request for the interface's own address.
unfoldable pub reply_arp : String → ArpPkt → M (Unit {0})
unfolding tx_ethernet
reply_arp name arp = do
  i ← net_if name
  if arp.option == arp_request && ip_eq arp.dst_addr i.base.ip_addr
      then send_arp name arp.src_mac (
          build_arp_pkt [] (record {
            option = arp_reply;
            src_mac = i.mac_addr;
            src_addr = i.base.ip_addr;
            dst_mac = arp.src_mac;
            dst_addr = arp.src_addr;
          }))
      else pure tt

-- Both guards of HandleArp: the two sender addresses agree, and nobody else has the own address.
abbrev pub handle_parsed_arp : Answers → String → MacAddr → Parsed ArpError ArpPkt → M (Unit {0})
handle_parsed_arp g name src_mac (err e) = pure tt
handle_parsed_arp g name src_mac (ok arp) = do
  i ← net_if name
  if not (mac_eq arp.src_mac src_mac)
      then pure tt
      else if ip_eq arp.src_addr i.base.ip_addr
      then pure tt
      else (do set_arp_cache g name arp.src_addr arp.src_mac; reply_arp name arp)

unfoldable pub handle_arp : Answers → String → List ℕ → MacAddr → M (Unit {0})
unfolding set_arp_cache reply_arp
handle_arp g name eth_payload src_mac = handle_parsed_arp g name src_mac (parse_arp_pkt eth_payload)

-- One tick of ArpTableRefresh: an entry within ten seconds of its end is asked for again. The
-- difference is that of uint32.
unfoldable pub refresh_entries : String → ℕ → List (ℕ × ArpCache) → M (Unit {0})
unfolding send_arp_req
refresh_entries name now [] = pure tt
refresh_entries name now ((key, value) ∷ rest) = do
  (if ltb (u32 (value.exp_time + 2 ^ 32 - 10)) now
      then send_arp_req name (u_to_ip_addr value.ip_addr)
      else pure tt)
  refresh_entries name now rest

unfoldable pub arp_table_refresh : String → M (Unit {0})
unfolding refresh_entries
arp_table_refresh name = do
  i ← net_if name
  now ← gets (λ r. r.time_now)
  refresh_entries name now i.arp_cache_table

-- One tick of ArpTableClear.
unfoldable pub live_entries : ℕ → List (ℕ × ArpCache) → List (ℕ × ArpCache)
live_entries now [] = []
live_entries now ((key, value) ∷ rest) =
    let kept = live_entries now rest in if ltb value.exp_time now then kept else (key, value) ∷ kept

unfoldable pub arp_table_clear : String → M (Unit {0})
unfolding live_entries
arp_table_clear name = do
  i ← net_if name
  now ← gets (λ r. r.time_now)
  put_if name (record i { arp_cache_table = live_entries now i.arp_cache_table })

unfoldable pub list_arp : String → M (List ArpCache)
list_arp name = do i ← net_if name; pure (map (λ (e : ℕ × ArpCache). e.1) i.arp_cache_table)
