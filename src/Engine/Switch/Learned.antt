-- ===== src/Engine/Switch/Learned.antt =====
-- engine/ethernet_engine.go: HandleEthernet on a switch whose table names its ports.
use mathlib.Core.Path.{subst}
use mathlib.Core.List.{append_assoc, append-nil}
use halo.Base.{
  ℕ, true, false, ◌≡◌, ◌≢◌, ◌≤◌, ◌⊎◌, inl, inr, List, [], ◌∷◌, ◌++◌, Option, none, some, refl, sym,
  ap, ◌∙◌, arith, Bool-cases, Option-cases, some_inj, Eq, lookup, insert, erase, lookup-insert,
  lookup-erase, beq_refl, if◌then◌else◌, not, length, map, take_all, length-drop, ◌==◌, ltb, take,
  ◌%◌,
}
use halo.Base.{ok}
use halo.Mem.StaticString.{get_64, set_64}
use halo.Mem.StaticString.Stored.{get-set_64}
use halo.Protocol.Utils.{MacAddr}
use halo.Protocol.Ethernet.{EthFrm, parse_eth_frm}
use halo.Protocol.Ethernet.Laws.{eth_bytes, build_eth_bytes, parse_eth_iff}
use halo.Engine.Switch.{
  Switch, SwitchPort, SwitchMacAddr, Room, bytes_key, mac_key, bytes_eq, tx_ethernet, flood,
  forward_frame, learn, storage, enter, publish, learn_forward, forward_learned, handle_ethernet,
  is_multicast,
}

-- The storage that the allocator hands out for a name has 64 bytes.
abbrev pub IsRoom : Room → Type 0
IsRoom g = (c : SwitchMacAddr) → g.cell ≡ some c → length c.net_if ≡ 64

pub record IsSwitch (s : Switch) : Type 0 where
  pub ports :
      (name : List ℕ) (port : SwitchPort)
      → lookup name s.switch_port_map ≡ some port
      → (port.name ≡ name) × (name ≢ []) × (length name ≤ 63)
  pub known :
      (mac : MacAddr) (e : SwitchMacAddr)
      → lookup mac s.switch_mac_addr_table ≡ some e
      → (is_multicast mac ≡ false)
        × (length e.net_if ≡ 64)
        × (port : SwitchPort) × (lookup (get_64 e.net_if) s.switch_port_map ≡ some port)

-- The name of a port is stored whole.
pub stored_name :
    (old name : List ℕ)
    → length old ≡ 64
    → name ≢ []
    → length name ≤ 63
    → (t : List ℕ) × (set_64 old name ≡ some t) × (length t ≡ 64) × (get_64 t ≡ name)
stored_name old name h n k =
    let (t, e, l, v) = get-set_64 old name h n in
    let whole : (if ltb 63 (length name % 256) then 63 else length name % 256) ≡ length name =
      ground arith in
    (t, e, l, v ∙ ap (λ z. take z name) whole ∙ take_all (length name) name refl)

-- What a table holds after a binding was put in, or taken out.
pub insert_cases :
    {K V : Type 0} ⦃eq : Eq K⦄ (k j : K) (v w : V) (m : List (K × V))
    → lookup j (insert k v m) ≡ some w
    → ((k ≡ j) × (v ≡ w)) ⊎ (lookup j m ≡ some w)
insert_cases ⦃eq⦄ k j v w m h =
    let both = sym (lookup-insert k j v m) ∙ h in ground (arith, both, eq.beq_iff k j)

pub erase_found :
    {K V : Type 0} ⦃eq : Eq K⦄ (k j : K) (w : V) (m : List (K × V))
    → lookup j (erase k m) ≡ some w
    → lookup j m ≡ some w
erase_found k j w m h = let both = sym (lookup-erase k j m) ∙ h in ground (arith, both)

pub learn-IsSwitch :
    (src : MacAddr) (t : List ℕ) (port : SwitchPort) (s : Switch)
    → IsSwitch s
    → is_multicast src ≡ false
    → length t ≡ 64
    → lookup (get_64 t) s.switch_port_map ≡ some port
    → IsSwitch (learn src t s)
learn-IsSwitch src t port s v m l p = record {
  ports = v.ports;
  known = λ mac e h. elim (insert_cases src mac _ e s.switch_mac_addr_table h) [
    | inr o ↦ v.known mac e o
    | inl (a, b) ↦
        subst
          (λ z.
            (is_multicast z ≡ false)
            × (length e.net_if ≡ 64)
            × (q : SwitchPort) × (lookup (get_64 e.net_if) s.switch_port_map ≡ some q))
          a
          (subst
            (λ z.
              (is_multicast src ≡ false)
              × (length z.net_if ≡ 64)
              × (q : SwitchPort) × (lookup (get_64 z.net_if) s.switch_port_map ≡ some q))
            b (m, l, port, p))
  ];
}

-- What goes out on a port: the frame, filled up with zeros.
abbrev pub emission : EthFrm → SwitchPort → List ℕ × List ℕ
emission eth port = (port.name, eth_bytes eth)

-- The ports that a flood from `i` reaches.
abbrev pub others : SwitchPort → List (List ℕ × SwitchPort) → List SwitchPort
others i [] = []
others i ((key, port) ∷ ports) =
    let rest = others i ports in
    if bytes_eq port.name i.name
    then rest
    else if not (port.vlan_id == i.vlan_id)
    then rest
    else port ∷ rest

abbrev pub sending : List (List ℕ × List ℕ) → Switch → Switch
sending out s = record s { sent = s.sent ++ out }

pub tx_ethernet_lem :
    (port : SwitchPort) (eth : EthFrm) (s : Switch)
    → length eth.payload ≤ 1500
    → tx_ethernet port eth s ≡ (true, sending (emission eth port ∷ []) s)
unfolding tx_ethernet
tx_ethernet_lem port eth s h = rw (build_eth_bytes eth h) refl

pub flood_lem :
    (i : SwitchPort) (eth : EthFrm) (ports : List (List ℕ × SwitchPort)) (s : Switch)
    → length eth.payload ≤ 1500
    → flood i eth ports s ≡ sending (map (emission eth) (others i ports)) s
unfolding flood
flood_lem i eth [] s h = ap (λ z. record s { sent = z }) (sym (append-nil s.sent))
flood_lem i eth ((key, port) ∷ ports) s h = elim (Bool-cases (bytes_eq port.name i.name)) [
  | inl y ↦ rw y (flood_lem i eth ports s h)
  | inr n ↦ elim (Bool-cases (port.vlan_id == i.vlan_id)) [
    | inr d ↦ rw (n, d) (flood_lem i eth ports s h)
    | inl c ↦
        rw (n, c)
          (ap (λ z. flood i eth ports z.1) (tx_ethernet_lem port eth s h)
            ∙ flood_lem i eth ports (sending (emission eth port ∷ []) s) h
            ∙ ap (λ z. record s { sent = z }) (append_assoc s.sent _ _))
  ]
]

-- A frame from a switch that knows its ports is always passed on.
pub forward_total :
    (i : SwitchPort) (eth : EthFrm) (s : Switch)
    → IsSwitch s
    → length eth.payload ≤ 1500
    → (o : Option SwitchMacAddr) → lookup eth.dst_mac s.switch_mac_addr_table ≡ o
    → (out : List (List ℕ × List ℕ)) × (forward_frame i eth o s ≡ some (sending out s))
forward_total i eth s v h none e = (_, ap some (flood_lem i eth s.switch_port_map s h))
forward_total i eth s v h (some a) e =
    let (m, l, port, p) = v.known eth.dst_mac a e in
    (emission eth port ∷ [], rw p (ap (λ z. some z.1) (tx_ethernet_lem port eth s h)))

sending-IsSwitch :
    (out : List (List ℕ × List ℕ)) (s : Switch) → IsSwitch s → IsSwitch (sending out s)
sending-IsSwitch out s v = record { ports = v.ports; known = v.known }

insert-insert :
    {K V : Type 0} ⦃eq : Eq K⦄ (k : K) (v w : V) (m : List (K × V))
    → insert k v (insert k w m) ≡ insert k v m
insert-insert k v w [] = rw (beq_refl k) refl
insert-insert ⦃eq⦄ k v w ((j, x) ∷ m) = elim (Bool-cases (eq.beq j k)) [
  | inl y ↦ rw (y, y) refl
  | inr n ↦ rw (n, n) (ap (λ z. (j, x) ∷ z) (insert-insert k v w m))
]

-- The table after the cell was written does not show what the cell held.
pub enter_lem :
    (g : Room) (src : MacAddr) (old : SwitchMacAddr) (s : Switch)
    → storage g (lookup src s.switch_mac_addr_table) ≡ some old
    → (t : Switch) × (enter g src s ≡ some (old, t))
      × ((name : List ℕ) → learn src name t ≡ learn src name s)
unfolding enter
enter_lem g src old s o = elim (Option-cases (lookup src s.switch_mac_addr_table)) [
  | inr (e, h) ↦
      (s, rw h (ap (λ z. some (z, s)) (some_inj (ap (storage g) (sym h) ∙ o))), λ name. refl)
  | inl h ↦ (
    _,
    rw h (ap (λ z. publish src z s) (ap (storage g) (sym h) ∙ o)),
    λ name.
        ap (λ z. record s { switch_mac_addr_table = z })
          (insert-insert src _ old s.switch_mac_addr_table),
  )
]

enter-none :
    (g : Room) (src : MacAddr) (s : Switch)
    → storage g (lookup src s.switch_mac_addr_table) ≡ none
    → enter g src s ≡ none
unfolding enter
enter-none g src s o = elim (Option-cases (lookup src s.switch_mac_addr_table)) [
  | inr (e, h) ↦ absurd (ground (arith, ap (storage g) (sym h) ∙ o))
  | inl h ↦ rw h (ap (λ z. publish src z s) (ap (storage g) (sym h) ∙ o))
]

module _ (g : Room) (i : SwitchPort) (name : List ℕ) (s : Switch) (room : IsRoom g) (v : IsSwitch s)
    (here : lookup name s.switch_port_map ≡ some i) where
  -- Every storage for a name that the code comes by has 64 bytes.
  pub length-storage :
      (src : MacAddr) (o : Option SwitchMacAddr) (old : SwitchMacAddr)
      → lookup src s.switch_mac_addr_table ≡ o
      → storage g o ≡ some old
      → length old.net_if ≡ 64
  length-storage src (some e) old h k =
      let (m, l, port, p) = v.known src e h in ap (λ z. length z.net_if) (sym (some_inj k)) ∙ l
  length-storage src none old h k = ground (arith, room old)

  -- A frame whose source is learned: what is sent, and that the source is known by this port.
  pub passed_on :
      (eth : EthFrm) (old : SwitchMacAddr)
      → is_multicast eth.src_mac ≡ false
      → length eth.payload ≤ 1500
      → storage g (lookup eth.src_mac s.switch_mac_addr_table) ≡ some old
      → (t : List ℕ) × (out : List (List ℕ × List ℕ)) × (lookup (get_64 t) s.switch_port_map
          ≡ some i)
        × IsSwitch (sending out (learn eth.src_mac t s))
        × (handle_ethernet g i eth s ≡ some (sending out (learn eth.src_mac t s)))
        × (forward_frame i eth
              (lookup eth.dst_mac (learn eth.src_mac t s).switch_mac_addr_table)
              (learn eth.src_mac t s)
            ≡ some (sending out (learn eth.src_mac t s)))
  unfolding handle_ethernet
  passed_on eth old m h o =
      let (own, nonempty, short) = v.ports name i here in
      let (t, e, l, k) =
        stored_name old.net_if i.name (length-storage eth.src_mac _ old refl o)
          (λ z. nonempty (sym own ∙ z)) (omega (arith, ap length own)) in
      let at_home : lookup (get_64 t) s.switch_port_map ≡ some i =
        ap (λ z. lookup z s.switch_port_map) (k ∙ own) ∙ here in
      let w = learn-IsSwitch eth.src_mac t i s v m l at_home in
      let (out, f) = forward_total i eth (learn eth.src_mac t s) w h _ refl in
      let (u, en, same) = enter_lem g eth.src_mac old s o in
      let whole : learn_forward i eth (enter g eth.src_mac s) s
          ≡ some (sending out (learn eth.src_mac t s)) =
        ap (λ z. learn_forward i eth z s) en
        ∙ ap (λ z. forward_learned i eth z u) e
        ∙ ap (λ z. forward_frame i eth (lookup eth.dst_mac z.switch_mac_addr_table) z) (same t)
        ∙ f in
      (t, out, at_home, sending-IsSwitch out _ w, rw m whole, f)

  pub handled :
      (eth : EthFrm)
      → length eth.payload ≤ 1500
      → (s' : Switch) × (handle_ethernet g i eth s ≡ some s')
        × IsSwitch s'
        × (s'.switch_port_map ≡ s.switch_port_map)
  unfolding handle_ethernet
  handled eth h = elim (Bool-cases (is_multicast eth.src_mac)) [
    | inl y ↦ (s, rw y refl, v, refl)
    | inr m ↦ elim (Option-cases (storage g (lookup eth.src_mac s.switch_mac_addr_table))) [
      | inl n ↦
          (s, rw m (ap (λ z. learn_forward i eth z s) (enter-none g eth.src_mac s n)), v, refl)
      | inr (old, o) ↦
          let (t, out, p, w, e, f) = passed_on eth old m h o in
          (sending out (learn eth.src_mac t s), e, w, refl)
    ]
  ]

pub payload_fits :
    (frm : List ℕ) (eth : EthFrm) → parse_eth_frm frm ≡ ok eth → length eth.payload ≤ 1500
payload_fits frm eth h =
    let (a, b, c, d, e, f, p) = (parse_eth_iff frm eth).0 h in
    omega (arith, length-drop 14 frm, ap length p)
