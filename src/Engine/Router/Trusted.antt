-- ===== src/Engine/Router/Trusted.antt =====
-- engine/arp_engine.go: which packets may change the ARP cache.
use Prim.Native.String.{String}
use halo.Base.{
  ℕ, true, false, ◌≡◌, ◌⊎◌, inl, inr, List, Option, some, ◌==◌, ◌&&◌, ◌||◌, refl, ap, ap₂, ◌∙◌,
  arith, Bool-cases, lookup, nat_key,
}
use halo.Base.{ok, err, Parsed}
use halo.Protocol.Utils.{MacAddr, ip_addr_to_u}
use halo.Protocol.Arp.{ArpPkt, ArpError, parse_arp_pkt}
use halo.Engine.Route.{ip_eq}
use halo.Engine.Router.{Router, Interface, Answers, name_key, net_if_lem, ◌>>=◌}
use halo.Engine.Router.Arp.{mac_eq, is_known, handle_arp, handle_parsed_arp}
use halo.Engine.Router.ArpPackets.{
  lookup-arp_table, entry, asks, answered, learned, learned_in, learned_here, handle_accepted,
}

answered_map :
    (r : Router) (name : String) (i : Interface) (p : ArpPkt)
    → (answered r name i p).net_if_map ≡ r.net_if_map
answered_map r name i p = elim (Bool-cases (asks i p)) [ inl y ↦ rw y refl | inr n ↦ rw n refl ]

module _ (g : Answers) (r : Router) (name : String) (i : Interface) (pkt : List ℕ) (mac : MacAddr)
    (ip : ℕ) where
  -- A packet that may set the entry of `ip`.
  abbrev pub Vouches : ArpPkt → Type 0
  Vouches p =
      (parse_arp_pkt pkt ≡ ok p)
      × (p.src_mac ≡ mac)
      × (ip_eq p.src_addr i.base.ip_addr ≡ false)
      × (ip_addr_to_u p.src_addr ≡ ip)

  -- The call returns, and the entry of `ip` is the old one or that of a packet that vouches for it.
  abbrev pub Trusted : Option (Unit {0} × Router) → Type 0
  Trusted x =
      (r' : Router) × (i' : Interface) × (x ≡ some (tt, r'))
      × (lookup name r'.net_if_map ≡ some i')
      × ((lookup ip i'.arp_cache_table ≡ lookup ip i.arp_cache_table)
          ⊎ ((p : ArpPkt) × Vouches p
              × (lookup ip i'.arp_cache_table ≡ some (entry ip mac r.time_now))))

  module _ (here : lookup name r.net_if_map ≡ some i) where
    accepted :
        (p : ArpPkt)
        → parse_arp_pkt pkt ≡ ok p
        → mac_eq p.src_mac mac ≡ true
        → ip_eq p.src_addr i.base.ip_addr ≡ false
        → Trusted (handle_arp g name pkt mac r)
    accepted p read same other =
        let k = ip_addr_to_u p.src_addr in
        let q : p.src_mac ≡ mac = ground (arith, same) in
        let e = lookup-arp_table g k p.src_mac r.time_now i.arp_cache_table ip in
        (
          answered (learned_in g r name i p) name (learned g r name i p) p,
          learned g r name i p,
          handle_accepted g r name i pkt mac p here read same other,
          ap (λ m. lookup name m)
                (answered_map (learned_in g r name i p) name (learned g r name i p) p)
              ∙ learned_here g r name i p,
          elim (Bool-cases
              ((is_known (lookup k i.arp_cache_table) || (g.arp_cell && g.arp_slot)) && k == ip)) [
                | inr n ↦ inl (e ∙ rw n refl)
                | inl y ↦
                    let kq : k ≡ ip = ground (arith, y) in
                    inr (
                      p,
                      (read, q, other, kq),
                      e ∙ rw y (ap₂ (λ a b. some (entry a b r.time_now)) kq q),
                    )
              ],
        )

    unchanged : {x : Option (Unit {0} × Router)} → x ≡ some (tt, r) → Trusted x
    unchanged e = (r, i, e, here, inl refl)

    by_parse :
        (x : Parsed ArpError ArpPkt) → parse_arp_pkt pkt ≡ x → Trusted (handle_arp g name pkt mac r)
    unfolding handle_arp
    by_parse (err e) read = unchanged (ap (λ x. handle_parsed_arp g name mac x r) read)
    by_parse (ok p) read = elim (Bool-cases (mac_eq p.src_mac mac)) [
      | inr n ↦ unchanged (
          ap (λ x. handle_parsed_arp g name mac x r) read
          ∙ rw (net_if_lem name i r here, ◌>>=◌) (rw n refl))
      | inl same ↦ elim (Bool-cases (ip_eq p.src_addr i.base.ip_addr)) [
        | inl own ↦ unchanged (
            ap (λ x. handle_parsed_arp g name mac x r) read
            ∙ rw (net_if_lem name i r here, ◌>>=◌) (rw (same, own) refl))
        | inr other ↦ accepted p read same other
      ]
    ]

    -- On a known interface HandleArp returns, and a packet changes the cache in at most one address, that
    -- of its sender, and only if it parses, claims the link address that its frame came from,
    -- and is not from the interface's own address. The entry is then that link address, for 300 seconds.
    pub handle_arp-Trusted : Trusted (handle_arp g name pkt mac r)
    handle_arp-Trusted = by_parse (parse_arp_pkt pkt) refl
