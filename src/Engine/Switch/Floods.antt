-- ===== src/Engine/Switch/Floods.antt =====
-- engine/ethernet_engine.go: which ports of a switch a flood goes out on.
use mathlib.Core.List.{Memᴰ}
use mathlib.Core.List.Memᴰ.{not-nil, cases_cons, head, tail}
use mathlib.Core.Path.{subst}
use halo.Base.{
  ℕ, true, false, ◌≡◌, ◌≢◌, ◌↔◌, inl, inr, List, [], ◌∷◌, ◌++◌, some, refl, sym, ap, ◌∙◌, arith,
  Bool-cases, Option-cases, some_inj, lookup, map, ◌⊎◌, ◌==◌, ==_iff,
}
use halo.Base.{ok}
use halo.Mem.StaticString.{get_64}
use halo.Protocol.Ethernet.{EthFrm, parse_eth_frm}
use halo.Engine.Switch.{
  Switch, SwitchPort, Room, bytes_key, mac_key, bytes_eq, bytes_eq_iff, init_switch, forward_frame,
  learn, storage, rx_ethernet, is_multicast,
}
use halo.Engine.Switch.Learned.{
  IsRoom, IsSwitch, passed_on, payload_fits, emission, others, sending, flood_lem,
}
use halo.Engine.Switch.Steps.{Reach, AllNamed, Reach-IsSwitch, init_switch-IsSwitch}
use halo.Engine.Switch.{SwitchMacAddr}

-- A port that a flood from `i` is meant for.
abbrev pub IsOther : SwitchPort → SwitchPort → Type 0
IsOther i p = (p.name ≢ i.name) × (p.vlan_id ≡ i.vlan_id)

others_cases :
    (i p : SwitchPort) (key : List ℕ) (ports : List (List ℕ × SwitchPort))
    → ((others i ((key, p) ∷ ports) ≡ others i ports) × ¬ IsOther i p)
      ⊎ ((others i ((key, p) ∷ ports) ≡ p ∷ others i ports) × IsOther i p)
others_cases i p key ports = elim (Bool-cases (bytes_eq p.name i.name)) [
  | inl y ↦ inl (rw y refl, λ o. o.0 ((bytes_eq_iff p.name i.name).0 y))
  | inr n ↦ elim (Bool-cases (p.vlan_id == i.vlan_id)) [
    | inr d ↦ inl (rw (n, d) refl, λ o. ground (arith, o.1))
    | inl c ↦ inr (
      rw (n, c) refl,
      (
        λ e. absurd (ground (arith, n, (bytes_eq_iff p.name i.name).1 e)),
        (==_iff p.vlan_id i.vlan_id).0 c,
      ),
    )
  ]
]

module _ (i p : SwitchPort) where
  in_others :
      (ports : List (List ℕ × SwitchPort))
      → Memᴰ p (others i ports)
      → ((key : List ℕ) × Memᴰ (key, p) ports) × IsOther i p
  in_others [] m = absurd (not-nil m)
  in_others ((key, q) ∷ ports) m = elim (others_cases i q key ports) [
    | inl (e, n) ↦ let ((k, d), o) = in_others ports (subst (Memᴰ p) e m) in ((k, tail d), o)
    | inr (e, o) ↦ elim (cases_cons (subst (Memᴰ p) e m)) [
      | inl h ↦ ((key, head (ap (λ z. (key, z)) h)), subst (IsOther i) (sym h) o)
      | inr d ↦ let ((k, d'), o') = in_others ports d in ((k, tail d'), o')
    ]
  ]

  others_in :
      (key : List ℕ) (ports : List (List ℕ × SwitchPort))
      → Memᴰ (key, p) ports
      → IsOther i p
      → Memᴰ p (others i ports)
  others_in key [] m o = absurd (not-nil m)
  others_in key ((k, q) ∷ ports) m o = elim (others_cases i q k ports) [
    | inl (e, n) ↦ subst (Memᴰ p) (sym e) (elim (cases_cons m) [
      | inl h ↦ absurd (n (subst (IsOther i) (ap (λ z. z.1) h) o))
      | inr d ↦ others_in key ports d o
    ])
    | inr (e, _) ↦ subst (Memᴰ p) (sym e) (elim (cases_cons m) [
      | inl h ↦ head (ap (λ z. z.1) h)
      | inr d ↦ tail (others_in key ports d o)
    ])
  ]

pub rx-passed_on :
    (g : Room) (i : SwitchPort) (name frm : List ℕ) (old : SwitchMacAddr) (s : Switch)
    (eth : EthFrm)
    → IsRoom g
    → IsSwitch s
    → lookup name s.switch_port_map ≡ some i
    → parse_eth_frm frm ≡ ok eth
    → is_multicast eth.src_mac ≡ false
    → storage g (lookup eth.src_mac s.switch_mac_addr_table) ≡ some old
    → (t : List ℕ) × (out : List (List ℕ × List ℕ)) × (lookup (get_64 t) s.switch_port_map ≡ some i)
      × IsSwitch (sending out (learn eth.src_mac t s))
      × (rx_ethernet g i frm s ≡ some (sending out (learn eth.src_mac t s)))
      × (forward_frame i eth
            (lookup eth.dst_mac (learn eth.src_mac t s).switch_mac_addr_table)
            (learn eth.src_mac t s)
          ≡ some (sending out (learn eth.src_mac t s)))
unfolding rx_ethernet
rx-passed_on g i name frm old s eth room v at_home p m o =
    let (t, out, a, w, e, f) =
      passed_on g i name s room v at_home eth old m (payload_fits frm eth p) o in
    (t, out, a, w, rw p e, f)

pub sent_inj : (s u : Switch) → some s ≡ some u → s.sent ≡ u.sent
sent_inj s u e = ap (λ z. z.sent) (some_inj e)

-- In a switch that has run from a configuration with non-empty names of at most 63 bytes, one frame
-- after the other, with an allocator whose cells hold 64 bytes of name, a frame on a port from a unicast source that can be
-- learned to a multicast destination goes out, filled up with zeros, once on each port that a
-- flood reaches, and nothing else is sent. These are exactly the ports of the VLAN of the port of
-- arrival with another name.
pub multicast_flooded :
    (config : List SwitchPort) (now : ℕ) (s : Switch) (g : Room) (i : SwitchPort)
    (name frm : List ℕ) (old : SwitchMacAddr) (eth : EthFrm)
    → AllNamed config
    → Reach (init_switch config now) s
    → IsRoom g
    → lookup name s.switch_port_map ≡ some i
    → parse_eth_frm frm ≡ ok eth
    → is_multicast eth.src_mac ≡ false
    → is_multicast eth.dst_mac ≡ true
    → storage g (lookup eth.src_mac s.switch_mac_addr_table) ≡ some old
    → (s' : Switch) × (rx_ethernet g i frm s ≡ some s')
      × (s'.sent ≡ s.sent ++ map (emission eth) (others i s.switch_port_map))
      × ((p : SwitchPort)
          → Memᴰ p (others i s.switch_port_map)
            ↔ (((key : List ℕ) × Memᴰ (key, p) s.switch_port_map) × IsOther i p))
multicast_flooded config now s g i name frm old eth c r room at_home p m d o =
    let v = Reach-IsSwitch _ s r (init_switch-IsSwitch config now c) in
    let (t, out, a, w, e, f) = rx-passed_on g i name frm old s eth room v at_home p m o in
    let u = learn eth.src_mac t s in
    (
      _,
      e,
      flooded u out w d f,
      λ q. (in_others i q s.switch_port_map, λ x. others_in i q x.0.0 s.switch_port_map x.0.1 x.1),
    )
  where
    flooded :
        (u : Switch) (out : List (List ℕ × List ℕ))
        → IsSwitch (sending out u)
        → is_multicast eth.dst_mac ≡ true
        → forward_frame i eth (lookup eth.dst_mac u.switch_mac_addr_table) u ≡ some (sending out u)
        → (sending out u).sent ≡ u.sent ++ map (emission eth) (others i u.switch_port_map)
    flooded u out w d f = elim (Option-cases (lookup eth.dst_mac u.switch_mac_addr_table)) [
      | inl n ↦ sent_inj _ _ (
          sym f
          ∙ ap (λ z. forward_frame i eth z u) n
          ∙ ap some (flood_lem i eth u.switch_port_map u (payload_fits frm eth p)))
      | inr (b, h) ↦ absurd (ground (arith, (w.known eth.dst_mac b h).0, d))
    ]
