-- ===== src/Engine/Router/Resolution.antt =====
-- engine/arp_engine.go: a link address that is asked for and answered.
use Prim.Native.String.{String}
use halo.Base.{
  ℕ, true, false, ◌≡◌, inl, inr, List, [], ◌∷◌, ◌++◌, none, some, ◌&&◌, refl, ◌∙◌, arith, lookup,
  nat_key,
}
use halo.Protocol.Utils.{ip_addr_to_u}
use halo.Protocol.Ethernet.Laws.{eth_bytes}
use halo.Protocol.Arp.{ArpPkt}
use halo.Engine.Route.{ip_eq}
use halo.Engine.Router.{Router, Interface, Answers, ArpCache, name_key, net_if_lem, ◌>>=◌}
use halo.Engine.Router.Link.{broadcast_mac_addr}
use halo.Engine.Router.Arp.{get_arp_cache}
use halo.Engine.Router.Dispatch.{rx_ethernet}
use halo.Engine.Router.ArpPackets.{
  arp_frame, sent_frame, request, reply, send_arp_req_lem, learned, learned_in, learned_here,
  rx_arp, cached, mac_eq_refl, ip_eq_refl,
}

module _ (ra rb : Router) (a b : String) (ia ib : Interface) (ga gb : Answers) where
  abbrev asked : ArpPkt
  asked = request ia ib.base.ip_addr

  abbrev told : ArpPkt
  told = reply (learned gb rb b ib asked) asked

  abbrev question : List ℕ
  question = eth_bytes (arp_frame ia broadcast_mac_addr asked)

  abbrev reply_frame : List ℕ
  reply_frame = eth_bytes (arp_frame (learned gb rb b ib asked) ia.mac_addr told)

  -- An interface that sends to an address it does not know gets its link address: it puts one frame
  -- on the link, the interface with that address learns the sender's and answers in one frame, and
  -- behind that frame the first interface has the address of the other in its cache, and the
  -- other that of the first. The two addresses differ and both allocators have room.
  pub address_resolved :
      lookup a ra.net_if_map ≡ some ia
      → lookup b rb.net_if_map ≡ some ib
      → ip_eq ib.base.ip_addr ia.base.ip_addr ≡ false
      → lookup (ip_addr_to_u ib.base.ip_addr) ia.arp_cache_table ≡ none
      → (ga.arp_cell && ga.arp_slot) ≡ true
      → (gb.arp_cell && gb.arp_slot) ≡ true
      → (ra1 : Router) × (ra2 : Router) × (rb1 : Router) × (f1 : List ℕ) × (f2 : List ℕ)
        × (ca : ArpCache) × (cb : ArpCache) × (get_arp_cache a ib.base.ip_addr ra
            ≡ some (none, ra1))
        × (ra1.sent ≡ ra.sent ++ ((a, f1) ∷ []))
        × (rx_ethernet b gb f1 rb ≡ some (tt, rb1))
        × (rb1.sent ≡ rb.sent ++ ((b, f2) ∷ []))
        × (rx_ethernet a ga f2 ra1 ≡ some (tt, ra2))
        × (ra2.sent ≡ ra1.sent)
        × (get_arp_cache a ib.base.ip_addr ra2 ≡ some (some ca, ra2))
        × (ca.mac_addr ≡ ib.mac_addr)
        × (get_arp_cache b ia.base.ip_addr rb1 ≡ some (some cb, rb1))
        × (cb.mac_addr ≡ ia.mac_addr)
  unfolding get_arp_cache
  address_resolved here there apart unknown room_a room_b =
      let ra1 = sent_frame ra a question in
      let rb0 = learned_in gb rb b ib asked in
      let rb1 = sent_frame rb0 b reply_frame in
      let ra2 = learned_in ga ra1 a ia told in
      let apart' : ip_eq ia.base.ip_addr ib.base.ip_addr ≡ false = ground (arith, apart) in
      let me : ip_eq ib.base.ip_addr ib.base.ip_addr ≡ true = ip_eq_refl ib.base.ip_addr in
      let (ca, in_a, mac_a) =
        cached ga ra1 a ia ra2 told room_a (learned_here ga ra1 a ia told) apart in
      let (cb, in_b, mac_b) =
        cached gb rb b ib rb1 asked room_b (learned_here gb rb b ib asked) apart' in
      (
        ra1,
        ra2,
        rb1,
        question,
        reply_frame,
        ca,
        cb,
        rw (net_if_lem a ia ra here, ◌>>=◌)
            (rw (apart, unknown, send_arp_req_lem ra a ia ib.base.ip_addr here, ◌>>=◌) refl),
        refl,
        rx_arp gb rb b ib ia broadcast_mac_addr asked there (inl refl) (ground arith) refl apart'
            ∙ rw me refl,
        refl,
        rx_arp ga ra1 a ia (learned gb rb b ib asked) ia.mac_addr told here (inr refl)
            (rw (mac_eq_refl ia.mac_addr) refl) refl apart,
        refl,
        in_a,
        mac_a,
        in_b,
        mac_b,
      )
