-- ===== src/Engine/Switch/Race.antt =====
-- engine/ethernet_engine.go: two goroutines in HandleEthernet, of which the second comes in between
-- the release of the lock and the write of the cell of the first.
use halo.Base.{
  ℕ, false, ◌≡◌, ◌≢◌, List, none, some, refl, sym, ap, ◌∙◌, arith, lookup, insert, length,
  lookup-insert, beq_refl, if◌then◌else◌,
}
use halo.Base.{ok}
use halo.Mem.StaticString.{get_64, set_64}
use halo.Protocol.Utils.{MacAddr}
use halo.Protocol.Ethernet.{EthFrm, parse_eth_frm}
use halo.Engine.Switch.{
  Switch, SwitchPort, SwitchMacAddr, Room, bytes_key, mac_key, mac_eq_iff, init_switch, send_to,
  forward_frame, forward_learned, learn_forward, learn, new_storage, storage, publish, enter,
  handle_ethernet, rx_ethernet, is_multicast,
}
use halo.Engine.Switch.Learned.{IsRoom, stored_name, enter_lem, length-storage}
use halo.Engine.Switch.Steps.{
  Reach, AllNamed, Reach-IsSwitch, init_switch-IsSwitch, rx_ethernet-IsSwitch,
}

-- The switch in which a new cell is in the table, and not yet written.
abbrev pub published : MacAddr → SwitchMacAddr → Switch → Switch
published src c s = record s { switch_mac_addr_table = insert src c s.switch_mac_addr_table }

enter_new :
    (g : Room) (src : MacAddr) (c : SwitchMacAddr) (s : Switch)
    → lookup src s.switch_mac_addr_table ≡ none
    → new_storage g ≡ some c
    → enter g src s ≡ some (c, published src c s)
unfolding enter
enter_new g src c s h k = rw h (ap (λ z. publish src z s) k)

-- A frame to an entry whose cell names no port.
handle-nil_port :
    (h : Room) (j : SwitchPort) (eth : EthFrm) (free c : SwitchMacAddr) (name : List ℕ) (t : Switch)
    → is_multicast eth.src_mac ≡ false
    → storage h (lookup eth.src_mac t.switch_mac_addr_table) ≡ some free
    → set_64 free.net_if j.name ≡ some name
    → eth.src_mac ≢ eth.dst_mac
    → lookup eth.dst_mac t.switch_mac_addr_table ≡ some c
    → lookup (get_64 c.net_if) t.switch_port_map ≡ none
    → handle_ethernet h j eth t ≡ none
unfolding handle_ethernet
handle-nil_port h j eth free c name t m o e d k p =
    let (u, en, same) = enter_lem h eth.src_mac free t o in
    let v = learn eth.src_mac name t in
    let kept : lookup eth.dst_mac v.switch_mac_addr_table ≡ some c =
      lookup-insert eth.src_mac eth.dst_mac _ t.switch_mac_addr_table
      ∙ ground (arith, k, d, mac_eq_iff eth.src_mac eth.dst_mac) in
    let whole : learn_forward j eth (enter h eth.src_mac t) t ≡ none =
      ap (λ z. learn_forward j eth z t) en
      ∙ ap (λ z. forward_learned j eth z u) e
      ∙ ap (λ z. forward_frame j eth (lookup eth.dst_mac z.switch_mac_addr_table) z) (same name)
      ∙ ap (λ z. forward_frame j eth z v) kept
      ∙ ap (λ z. send_to eth z v) p in
    rw m whole

-- In a switch that has run from a configuration with non-empty names of at most 63 bytes, one frame
-- after the other, with an allocator whose cells hold 64 bytes of name: a frame from an unknown
-- unicast source that can be learned and, after it, one to that source from another unicast source
-- that can be learned are both handled. The first one enters a cell `c` and releases the lock; the
-- rest of its work is learn_forward. If the second one comes in between, on any port, and what the
-- memory of `c` holds is not the name of a port, then the second panics.
pub unwritten_cell_panics :
    (config : List SwitchPort) (now : ℕ) (s : Switch) (g h : Room) (i j : SwitchPort)
    (i_name j_name frm back_frm : List ℕ) (c free : SwitchMacAddr) (eth back : EthFrm)
    → AllNamed config
    → Reach (init_switch config now) s
    → IsRoom g
    → IsRoom h
    → lookup i_name s.switch_port_map ≡ some i
    → lookup j_name s.switch_port_map ≡ some j
    → parse_eth_frm frm ≡ ok eth
    → parse_eth_frm back_frm ≡ ok back
    → is_multicast eth.src_mac ≡ false
    → is_multicast back.src_mac ≡ false
    → back.src_mac ≢ eth.src_mac
    → back.dst_mac ≡ eth.src_mac
    → lookup eth.src_mac s.switch_mac_addr_table ≡ none
    → new_storage g ≡ some c
    → lookup (get_64 c.net_if) s.switch_port_map ≡ none
    → storage h (lookup back.src_mac s.switch_mac_addr_table) ≡ some free
    → ((s' : Switch) × (s'' : Switch) × (rx_ethernet g i frm s ≡ some s')
        × (rx_ethernet h j back_frm s' ≡ some s''))
      × ((t : Switch) × (enter g eth.src_mac s ≡ some (c, t))
          × (rx_ethernet g i frm s ≡ learn_forward i eth (some (c, t)) s)
          × (rx_ethernet h j back_frm t ≡ none))
unfolding rx_ethernet handle_ethernet
unwritten_cell_panics config now s g h i j i_name j_name frm back_frm c free eth back a r rg rh ai
      aj p q mf m d e k n nil_port o =
    let v = Reach-IsSwitch _ s r (init_switch-IsSwitch config now a) in
    let (s', f, w, same) = rx_ethernet-IsSwitch g i i_name frm s rg v ai in
    let (s'', f', _, _) =
      rx_ethernet-IsSwitch h j j_name back_frm s' rh w (ap (lookup j_name) same ∙ aj) in
    let (own, nonempty, short) = v.ports j_name j aj in
    let (name, stored, _, _) =
      stored_name free.net_if j.name
        (length-storage h j j_name s rh v aj back.src_mac _ free refl o)
        (λ z. nonempty (sym own ∙ z)) (omega (arith, ap length own)) in
    let t = published eth.src_mac c s in
    let found : lookup back.dst_mac t.switch_mac_addr_table ≡ some c =
      ap (λ z. lookup z t.switch_mac_addr_table) e
      ∙ lookup-insert eth.src_mac eth.src_mac c s.switch_mac_addr_table
      ∙ ap (λ b. if b then some c else lookup eth.src_mac s.switch_mac_addr_table)
          (beq_refl eth.src_mac) in
    let room : storage h (lookup back.src_mac t.switch_mac_addr_table) ≡ some free =
      ap (storage h) (
        lookup-insert eth.src_mac back.src_mac c s.switch_mac_addr_table
        ∙ ground (arith, d, mac_eq_iff eth.src_mac back.src_mac))
      ∙ o in
    (
      (s', s'', f, f'),
      (
        t,
        enter_new g eth.src_mac c s k n,
        rw (p, mf) (ap (λ z. learn_forward i eth z s) (enter_new g eth.src_mac c s k n)),
        rw q (handle-nil_port h j back free c name t m room stored (λ z. d (z ∙ e)) found nil_port),
      ),
    )
