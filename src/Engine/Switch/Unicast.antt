-- ===== src/Engine/Switch/Unicast.antt =====
-- engine/ethernet_engine.go: frames to an address that a switch has learned.
use mathlib.Core.Path.{subst}
use halo.Base.{
  ℕ, false, ◌≡◌, ◌≢◌, List, [], ◌∷◌, ◌++◌, some, sym, ap, ◌∙◌, arith, some_inj, lookup,
  lookup-insert, beq_refl, if◌then◌else◌,
}
use halo.Base.{ok}
use halo.Mem.StaticString.{get_64}
use halo.Protocol.Ethernet.{EthFrm, parse_eth_frm}
use halo.Engine.Switch.{
  Switch, SwitchPort, SwitchMacAddr, Room, bytes_key, mac_key, mac_eq_iff, init_switch,
  forward_frame, send_to, learn, storage, rx_ethernet, is_multicast,
}
use halo.Engine.Switch.Learned.{IsRoom, IsSwitch, payload_fits, emission, sending, tx_ethernet_lem}
use halo.Engine.Switch.Steps.{Reach, AllNamed, Reach-IsSwitch, init_switch-IsSwitch}
use halo.Engine.Switch.Floods.{rx-passed_on, sent_inj}

-- A frame to an address that the table has goes to the port of its entry.
unicast_sent :
    (h : Room) (j i : SwitchPort) (name frm : List ℕ) (free : SwitchMacAddr) (s : Switch)
    (eth : EthFrm) (x : SwitchMacAddr)
    → IsRoom h
    → IsSwitch s
    → lookup name s.switch_port_map ≡ some j
    → parse_eth_frm frm ≡ ok eth
    → is_multicast eth.src_mac ≡ false
    → storage h (lookup eth.src_mac s.switch_mac_addr_table) ≡ some free
    → eth.src_mac ≢ eth.dst_mac
    → lookup eth.dst_mac s.switch_mac_addr_table ≡ some x
    → lookup (get_64 x.net_if) s.switch_port_map ≡ some i
    → (s' : Switch) × (rx_ethernet h j frm s ≡ some s')
      × (s'.sent ≡ s.sent ++ (emission eth i ∷ []))
unicast_sent h j i name frm free s eth x room v at_home p m o d k at_i =
    let (t, out, _, w, e, f) = rx-passed_on h j name frm free s eth room v at_home p m o in
    let u = learn eth.src_mac t s in
    let kept : lookup eth.dst_mac u.switch_mac_addr_table ≡ some x =
      lookup-insert eth.src_mac eth.dst_mac _ s.switch_mac_addr_table
      ∙ ground (arith, k, d, mac_eq_iff eth.src_mac eth.dst_mac) in
    (
      _,
      e,
      sent_inj (sending out u) (sending (emission eth i ∷ []) u) (
          sym f
          ∙ ap (λ z. forward_frame j eth z u) kept
          ∙ ap (λ z. send_to eth z u) at_i
          ∙ ap (λ z. some z.1) (tx_ethernet_lem i eth u (payload_fits frm eth p))),
    )

-- In a switch that has run from a configuration with non-empty names of at most 63 bytes, one frame
-- after the other, with an allocator whose cells hold 64 bytes of name: directly after a frame from a unicast source that
-- can be learned came in on a port, a frame on any port to that address, from another unicast
-- source that can be learned, goes out, filled up with zeros, on that port and on no other.
pub answer_unicast :
    (config : List SwitchPort) (now : ℕ) (s s' : Switch) (g h : Room) (i j : SwitchPort)
    (i_name j_name frm answer : List ℕ) (old free : SwitchMacAddr) (eth back : EthFrm)
    → AllNamed config
    → Reach (init_switch config now) s
    → IsRoom g
    → IsRoom h
    → lookup i_name s.switch_port_map ≡ some i
    → lookup j_name s'.switch_port_map ≡ some j
    → parse_eth_frm frm ≡ ok eth
    → parse_eth_frm answer ≡ ok back
    → is_multicast eth.src_mac ≡ false
    → is_multicast back.src_mac ≡ false
    → back.src_mac ≢ eth.src_mac
    → back.dst_mac ≡ eth.src_mac
    → storage g (lookup eth.src_mac s.switch_mac_addr_table) ≡ some old
    → storage h (lookup back.src_mac s'.switch_mac_addr_table) ≡ some free
    → rx_ethernet g i frm s ≡ some s'
    → (s'' : Switch) × (rx_ethernet h j answer s' ≡ some s'')
      × (s''.sent ≡ s'.sent ++ (emission back i ∷ []))
answer_unicast config now s s' g h i j i_name j_name frm answer old free eth back c r rg rh ai aj p
      q m n d a o f e =
    let v = Reach-IsSwitch _ s r (init_switch-IsSwitch config now c) in
    let (t, out, at_i, w, e1, _) = rx-passed_on g i i_name frm old s eth rg v ai p m o in
    let u = sending out (learn eth.src_mac t s) in
    let entry : SwitchMacAddr = record {
      mac_addr = eth.src_mac;
      net_if = t;
      create_time = s.time_now;
    } in
    let same : u ≡ s' = some_inj (sym e1 ∙ e) in
    let found : lookup back.dst_mac u.switch_mac_addr_table ≡ some entry =
      ap (λ z. lookup z u.switch_mac_addr_table) a
      ∙ lookup-insert eth.src_mac eth.src_mac entry s.switch_mac_addr_table
      ∙ ap (λ b. if b then some entry else lookup eth.src_mac s.switch_mac_addr_table)
          (beq_refl eth.src_mac) in
    unicast_sent h j i j_name answer free s' back entry rh (subst IsSwitch same w) aj q n f
      (λ z. d (z ∙ a))
      (subst (λ z. lookup back.dst_mac z.switch_mac_addr_table ≡ some entry) same found)
      (subst (λ z. lookup (get_64 t) z.switch_port_map ≡ some i) same at_i)
