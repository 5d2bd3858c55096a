-- ===== src/Engine/Router/ArpPackets.antt =====
-- engine/arp_engine.go: the frames of ARP packets, and what an accepted packet does.
use Prim.Native.String.{String}
use mathlib.Core.Path.{subst}
use halo.Base.{
  ℕ, Bool, true, false, ◌≡◌, ◌≤◌, ◌+◌, ◌-◌, ◌⊎◌, inl, inr, List, [], ◌∷◌, ◌++◌, some, ◌==◌, ◌&&◌,
  ◌||◌, refl, sym, ap, ◌∙◌, arith, Bool-cases, lookup, insert, lookup-insert, beq_refl, nat_key,
  if◌then◌else◌, length, replicate, bytes16, u32,
}
use halo.Base.{ok}
use halo.Protocol.Utils.{MacAddr, Ipv4Addr, ip_addr_to_u, mac_bytes, ip_bytes}
use halo.Protocol.Ethernet.{EthFrm, parse_eth_frm, eth_proto_arp}
use halo.Protocol.Ethernet.Laws.{eth_bytes, build_eth_bytes, parse-build_eth, padded}
use halo.Protocol.Arp.{ArpPkt, parse_arp_pkt, build_arp_pkt, arp_request, arp_reply}
use halo.Protocol.Arp.Laws.{parse-build_arp}
use halo.Engine.Route.{ip_eq}
use halo.Engine.Router.{Router, Interface, Answers, ArpCache, name_key, net_if_lem, ◌>>=◌}
use halo.Engine.Router.Link.{tx_ethernet, broadcast_mac_addr}
use halo.Engine.Router.Arp.{
  mac_eq, send_arp, send_arp_req, get_arp_cache, arp_table_with, is_known, set_arp_cache, reply_arp,
  handle_arp, handle_parsed_arp,
}
use halo.Engine.Router.Dispatch.{rx_ethernet, receive_frame}

pub mac_eq_refl : (m : MacAddr) → mac_eq m m ≡ true
mac_eq_refl m = ground arith

pub ip_eq_refl : (a : Ipv4Addr) → ip_eq a a ≡ true
ip_eq_refl a = ground arith

-- The entry of an address.
abbrev pub entry : ℕ → MacAddr → ℕ → ArpCache
entry ip mac now = record { ip_addr = ip; mac_addr = mac; exp_time = u32 (now + 300) }

-- Only the sender's address changes in the cache, and only if there is room.
pub lookup-arp_table :
    (g : Answers) (k : ℕ) (mac : MacAddr) (now : ℕ) (t : List (ℕ × ArpCache)) (j : ℕ)
    → lookup j (arp_table_with g k mac now t) ≡ (
        if (is_known (lookup k t) || (g.arp_cell && g.arp_slot)) && k == j
        then some (entry k mac now)
        else lookup j t)
lookup-arp_table g k mac now t j = elim (Bool-cases (is_known (lookup k t))) [
  | inl y ↦ rw y (lookup-insert k j (entry k mac now) t)
  | inr n ↦ rw n (elim (Bool-cases (g.arp_cell && g.arp_slot)) [
    | inl y ↦ rw y (lookup-insert k j (entry k mac now) t)
    | inr m ↦ rw m refl
  ])
]

abbrev pub arp_bytes : ArpPkt → List ℕ
arp_bytes p =
    0x00
    ∷ 0x01
    ∷ 0x08
    ∷ 0x00
    ∷ 0x06
    ∷ 0x04
    ∷ bytes16 p.option
        (mac_bytes p.src_mac (ip_bytes p.src_addr (mac_bytes p.dst_mac (ip_bytes p.dst_addr []))))

pub build_arp_bytes {ℓ} : {E : Type ℓ} (p : ArpPkt) → build_arp_pkt {E = E} [] p ≡ ok (arp_bytes p)
unfolding build_arp_pkt
build_arp_bytes p = refl

pub parse_arp_bytes :
    (p : ArpPkt) (zeros : List ℕ)
    → (p.option ≡ arp_request) ⊎ (p.option ≡ arp_reply)
    → parse_arp_pkt (arp_bytes p ++ zeros) ≡ ok p
unfolding build_arp_pkt
parse_arp_bytes p zeros h = parse-build_arp p zeros h

-- The frame of an ARP packet.
abbrev pub arp_frame : Interface → MacAddr → ArpPkt → EthFrm
arp_frame i dst p = record {
  payload = arp_bytes p;
  dst_mac = dst;
  src_mac = i.mac_addr;
  eth_proto = eth_proto_arp;
}

pub parse_eth_bytes :
    (p : EthFrm)
    → p.eth_proto ≡ eth_proto_arp
    → length p.payload ≤ 1500
    → parse_eth_frm (eth_bytes p) ≡ ok (padded p)
parse_eth_bytes p k h =
    let (frm, built, lo, hi, read) = parse-build_eth p (rw k refl) h in
    let same : frm ≡ eth_bytes p = cc (built, build_eth_bytes p h) in
    subst (λ x. parse_eth_frm x ≡ ok (padded p)) same read

abbrev pub sent_frame : Router → String → List ℕ → Router
sent_frame r name frm = record r { sent = r.sent ++ ((name, frm) ∷ []) }

pub send_arp_built :
    (r : Router) (name : String) (i : Interface) (dst : MacAddr) (p : ArpPkt)
    → lookup name r.net_if_map ≡ some i
    → send_arp name dst (build_arp_pkt [] p) r
      ≡ some (tt, sent_frame r name (eth_bytes (arp_frame i dst p)))
unfolding tx_ethernet
send_arp_built r name i dst p here =
    ap (λ x. send_arp name dst x r) (build_arp_bytes p)
    ∙ rw (net_if_lem name i r here, ◌>>=◌)
        (rw (build_eth_bytes (arp_frame i dst p) (omega arith), ◌>>=◌) refl)

-- The request and the reply between two interfaces.
abbrev pub request : Interface → Ipv4Addr → ArpPkt
request i ip = record {
  option = arp_request;
  src_mac = i.mac_addr;
  src_addr = i.base.ip_addr;
  dst_mac = broadcast_mac_addr;
  dst_addr = ip;
}

abbrev pub reply : Interface → ArpPkt → ArpPkt
reply i p = record {
  option = arp_reply;
  src_mac = i.mac_addr;
  src_addr = i.base.ip_addr;
  dst_mac = p.src_mac;
  dst_addr = p.src_addr;
}

pub send_arp_req_lem :
    (r : Router) (name : String) (i : Interface) (ip : Ipv4Addr)
    → lookup name r.net_if_map ≡ some i
    → send_arp_req name ip r
      ≡ some (tt, sent_frame r name (eth_bytes (arp_frame i broadcast_mac_addr (request i ip))))
unfolding send_arp_req
send_arp_req_lem r name i ip here =
    rw (net_if_lem name i r here, ◌>>=◌)
      (send_arp_built r name i broadcast_mac_addr (request i ip) here)

-- Whether a packet asks for the interface's own address, and what is sent then.
abbrev pub asks : Interface → ArpPkt → Bool
asks i p = p.option == arp_request && ip_eq p.dst_addr i.base.ip_addr

abbrev pub answered : Router → String → Interface → ArpPkt → Router
answered r name i p =
    if asks i p then sent_frame r name (eth_bytes (arp_frame i p.src_mac (reply i p))) else r

pub reply_arp_lem :
    (r : Router) (name : String) (i : Interface) (p : ArpPkt)
    → lookup name r.net_if_map ≡ some i
    → reply_arp name p r ≡ some (tt, answered r name i p)
unfolding reply_arp
reply_arp_lem r name i p here =
    rw (net_if_lem name i r here, ◌>>=◌)
      (elim (Bool-cases (asks i p)) [
        | inl y ↦ rw y (send_arp_built r name i p.src_mac (reply i p) here)
        | inr n ↦ rw n refl
      ])

module _ (g : Answers) (r : Router) (name : String) (i : Interface) where
  -- The interface and the router with the sender's address in the cache.
  abbrev pub learned : ArpPkt → Interface
  learned p = record i {
    arp_cache_table =
        arp_table_with g (ip_addr_to_u p.src_addr) p.src_mac r.time_now i.arp_cache_table;
  }

  abbrev pub learned_in : ArpPkt → Router
  learned_in p = record r { net_if_map = insert name (learned p) r.net_if_map }

  pub learned_here : (p : ArpPkt) → lookup name (learned_in p).net_if_map ≡ some (learned p)
  learned_here p = lookup-insert name name (learned p) r.net_if_map ∙ rw (beq_refl name) refl

  -- An accepted packet is learned and answered.
  pub handle_accepted :
      (pkt : List ℕ) (mac : MacAddr) (p : ArpPkt)
      → lookup name r.net_if_map ≡ some i
      → parse_arp_pkt pkt ≡ ok p
      → mac_eq p.src_mac mac ≡ true
      → ip_eq p.src_addr i.base.ip_addr ≡ false
      → handle_arp g name pkt mac r ≡ some (tt, answered (learned_in p) name (learned p) p)
  unfolding handle_arp set_arp_cache
  handle_accepted pkt mac p here read same other =
      ap (λ x. handle_parsed_arp g name mac x r) read
      ∙ rw (net_if_lem name i r here, ◌>>=◌)
          (rw (same, other, ◌>>=◌)
            (rw (net_if_lem name i r here, ◌>>=◌)
              (reply_arp_lem (learned_in p) name (learned p) p (learned_here p))))

  -- The frame of an accepted packet, sent to the interface or to everybody.
  pub rx_arp :
      (from : Interface) (dst : MacAddr) (p : ArpPkt)
      → lookup name r.net_if_map ≡ some i
      → (p.option ≡ arp_request) ⊎ (p.option ≡ arp_reply)
      → (mac_eq dst i.mac_addr || mac_eq dst broadcast_mac_addr) ≡ true
      → p.src_mac ≡ from.mac_addr
      → ip_eq p.src_addr i.base.ip_addr ≡ false
      → rx_ethernet name g (eth_bytes (arp_frame from dst p)) r
        ≡ some (tt, answered (learned_in p) name (learned p) p)
  unfolding rx_ethernet
  rx_arp from dst p here option to_me own other =
      let frm = arp_frame from dst p in
      rw (net_if_lem name i r here, ◌>>=◌)
        (ap (λ x. receive_frame name g (eth_bytes frm) i x r)
            (parse_eth_bytes frm refl (omega arith))
          ∙ rw to_me (
              handle_accepted (padded frm).payload from.mac_addr p here
                (parse_arp_bytes p (replicate (46 - length (arp_bytes p)) 0x00) option)
                (ap (λ m. mac_eq p.src_mac m) (sym own) ∙ mac_eq_refl p.src_mac) other))

  -- Afterwards the sender's address is cached, where the allocator has room.
  pub cached :
      (r' : Router) (p : ArpPkt)
      → (g.arp_cell && g.arp_slot) ≡ true
      → lookup name r'.net_if_map ≡ some (learned p)
      → ip_eq p.src_addr i.base.ip_addr ≡ false
      → (c : ArpCache) × (get_arp_cache name p.src_addr r' ≡ some (some c, r'))
        × (c.mac_addr ≡ p.src_mac)
  unfolding get_arp_cache
  cached r' p room here other = (
    entry (ip_addr_to_u p.src_addr) p.src_mac r.time_now,
    rw (net_if_lem name (learned p) r' here, ◌>>=◌) (rw (other, in_table, ◌>>=◌) refl),
    refl,
  )
    where
      in_table :
          lookup (ip_addr_to_u p.src_addr) (learned p).arp_cache_table
          ≡ some (entry (ip_addr_to_u p.src_addr) p.src_mac r.time_now)
      in_table =
          lookup-arp_table g (ip_addr_to_u p.src_addr) p.src_mac r.time_now i.arp_cache_table
            (ip_addr_to_u p.src_addr)
          ∙ ground (arith, room)
