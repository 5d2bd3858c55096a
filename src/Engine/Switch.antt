-- ===== src/Engine/Switch.antt =====
-- engine/engine.go, engine/ethernet_engine.go: a switch that learns link addresses. A call of
-- EthTxFunc adds to `sent`. The ports of SwitchPortMap stand in the order in which a range over the
-- map comes to them, which is any. HandleEthernet releases the lock between `enter` and the write
-- of the cell; handle_ethernet is the run in which no other frame comes in between.
pub mod Learned
pub mod Steps
pub mod Floods
pub mod Unicast
pub mod Race
use halo.Base.{
  ℕ, Bool, true, false, ◌+◌, ◌%◌, List, [], ◌∷◌, ◌++◌, Option, none, some, ◌==◌, ◌&&◌, not, ltb,
  if◌then◌else◌, u32, Eq, lookup, insert, erase, map, ◌≡◌, ◌↔◌, arith, replicate,
}
use halo.Base.{ok, err, Result, Parsed}
use halo.Mem.StaticString.{get_64, set_64}
use halo.Protocol.Utils.{MacAddr}
use halo.Protocol.Ethernet.{EthFrm, EthError, parse_eth_frm, build_eth_frm}
use halo.Engine.Router.Arp.{mac_eq}

-- `==` on the names of ports.
abbrev pub bytes_eq : List ℕ → List ℕ → Bool
bytes_eq [] [] = true
bytes_eq [] (b ∷ bs) = false
bytes_eq (a ∷ rest) [] = false
bytes_eq (a ∷ rest) (b ∷ bs) = a == b && bytes_eq rest bs

pub bytes_eq_iff : (a b : List ℕ) → (bytes_eq a b ≡ true) ↔ (a ≡ b)
bytes_eq_iff [] [] = ground arith
bytes_eq_iff [] (b ∷ bs) = ground arith
bytes_eq_iff (a ∷ rest) [] = ground arith
bytes_eq_iff (a ∷ rest) (b ∷ bs) = ground (arith, bytes_eq_iff rest bs)

instance abbrev pub bytes_key : Eq (List ℕ)
bytes_key = record { beq = bytes_eq; beq_iff = bytes_eq_iff }

pub mac_eq_iff : (a b : MacAddr) → (mac_eq a b ≡ true) ↔ (a ≡ b)
mac_eq_iff a b = ground arith

instance abbrev pub mac_key : Eq MacAddr
mac_key = record { beq = mac_eq; beq_iff = mac_eq_iff }

-- The fields of a port's configuration that the code reads.
pub record SwitchPort : Type 0 where
  pub name : List ℕ
  pub vlan_id : ℕ

pub record SwitchMacAddr : Type 0 where
  pub mac_addr : MacAddr
  pub net_if : List ℕ
  pub create_time : ℕ

pub record Switch : Type 0 where
  pub switch_port_map : List (List ℕ × SwitchPort)
  pub switch_mac_addr_table : List (MacAddr × SwitchMacAddr)
  pub time_now : ℕ
  pub sent : List (List ℕ × List ℕ)

-- What the static allocator answers while a source address is entered: a cell, if there is one,
-- with what its memory happens to hold, and whether the table gets its memory.
pub record Room : Type 0 where
  pub cell : Option SwitchMacAddr
  pub slot : Bool

abbrev pub put_ports : List SwitchPort → List (List ℕ × SwitchPort) → List (List ℕ × SwitchPort)
put_ports [] m = m
put_ports (p ∷ ps) m = put_ports ps (insert p.name p m)

unfoldable pub init_switch : List SwitchPort → ℕ → Switch
init_switch config now = record {
  switch_port_map = put_ports config [];
  switch_mac_addr_table = [];
  time_now = now;
  sent = [];
}

abbrev pub get_switch_port : Switch → List ℕ → Option SwitchPort
get_switch_port s name = lookup name s.switch_port_map

abbrev pub emit_built : SwitchPort → Result EthError (List ℕ) → Switch → Bool × Switch
emit_built port (err e) s = (false, s)
emit_built port (ok frm) s = (true, record s { sent = s.sent ++ ((port.name, frm) ∷ []) })

unfoldable pub tx_ethernet : SwitchPort → EthFrm → Switch → Bool × Switch
tx_ethernet port eth s = emit_built port (build_eth_frm [] eth) s

-- The loop over the ports, of which the port of arrival and those of other VLANs are passed over.
unfoldable pub flood : SwitchPort → EthFrm → List (List ℕ × SwitchPort) → Switch → Switch
unfolding tx_ethernet
flood i eth [] s = s
flood i eth ((key, port) ∷ ports) s = flood i eth ports (
    if bytes_eq port.name i.name
    then s
    else if not (port.vlan_id == i.vlan_id)
    then s
    else (tx_ethernet port eth s).1)

-- `none` is the nil pointer of a port that is not there.
abbrev pub send_to : EthFrm → Option SwitchPort → Switch → Option Switch
send_to eth none s = none
send_to eth (some port) s = some (tx_ethernet port eth s).1

abbrev pub forward_frame : SwitchPort → EthFrm → Option SwitchMacAddr → Switch → Option Switch
forward_frame i eth none s = some (flood i eth s.switch_port_map s)
forward_frame i eth (some e) s = send_to eth (get_switch_port s (get_64 e.net_if)) s

abbrev pub is_multicast : MacAddr → Bool
is_multicast mac = mac.m0 % 2 == 1

-- The cell that is written: that of the entry, or a new one that the table could take.
abbrev pub new_storage : Room → Option SwitchMacAddr
new_storage g = if g.slot then g.cell else none

abbrev pub storage : Room → Option SwitchMacAddr → Option SwitchMacAddr
storage g (some e) = some e
storage g none = new_storage g

-- A new cell enters the table with what it holds.
abbrev pub publish : MacAddr → Option SwitchMacAddr → Switch → Option (SwitchMacAddr × Switch)
publish src none s = none
publish src (some c) s =
    some (c, record s { switch_mac_addr_table = insert src c s.switch_mac_addr_table })

abbrev pub found_or_new :
    Room → MacAddr → Option SwitchMacAddr → Switch → Option (SwitchMacAddr × Switch)
found_or_new g src (some e) s = some (e, s)
found_or_new g src none s = publish src (new_storage g) s

-- The first part of HandleEthernet, up to the release of the lock: the cell, and the table with it.
unfoldable pub enter : Room → MacAddr → Switch → Option (SwitchMacAddr × Switch)
enter g src s = found_or_new g src (lookup src s.switch_mac_addr_table) s

-- The cell is written.
abbrev pub learn : MacAddr → List ℕ → Switch → Switch
learn src name s = record s {
  switch_mac_addr_table =
      insert src (record { mac_addr = src; net_if = name; create_time = s.time_now })
        s.switch_mac_addr_table;
}

abbrev pub forward_learned : SwitchPort → EthFrm → Option (List ℕ) → Switch → Option Switch
forward_learned i eth none s = none
forward_learned i eth (some name) s =
    let t = learn eth.src_mac name s in
    forward_frame i eth (lookup eth.dst_mac t.switch_mac_addr_table) t

-- The second part: the write of the cell, and the frame goes on.
abbrev pub learn_forward :
    SwitchPort → EthFrm → Option (SwitchMacAddr × Switch) → Switch → Option Switch
learn_forward i eth none s = some s
learn_forward i eth (some (c, t)) s = forward_learned i eth (set_64 c.net_if i.name) t

unfoldable pub handle_ethernet : Room → SwitchPort → EthFrm → Switch → Option Switch
unfolding flood tx_ethernet enter
handle_ethernet g i eth s =
    if is_multicast eth.src_mac then some s else learn_forward i eth (enter g eth.src_mac s) s

abbrev pub handle_parsed : Room → SwitchPort → Parsed EthError EthFrm → Switch → Option Switch
handle_parsed g i (err e) s = some s
handle_parsed g i (ok eth) s = handle_ethernet g i eth s

unfoldable pub rx_ethernet : Room → SwitchPort → List ℕ → Switch → Option Switch
unfolding handle_ethernet
rx_ethernet g i frm s = handle_parsed g i (parse_eth_frm frm) s

-- `TimeNow > CreateTime+300`, of uint32.
abbrev pub aged : Switch → SwitchMacAddr → Bool
aged s e = ltb (u32 (e.create_time + 300)) s.time_now

unfoldable pub clear_entries : List (MacAddr × SwitchMacAddr) → Switch → Switch
clear_entries [] s = s
clear_entries ((mac, e) ∷ rest) s =
    clear_entries rest (
      if aged s e
      then record s { switch_mac_addr_table = erase mac s.switch_mac_addr_table }
      else s)

unfoldable pub switch_mac_addr_clear : Switch → Switch
unfolding clear_entries
switch_mac_addr_clear s = clear_entries s.switch_mac_addr_table s

unfoldable pub list_switch_mac_addr : Switch → List SwitchMacAddr
list_switch_mac_addr s = map (λ (e : MacAddr × SwitchMacAddr). e.1) s.switch_mac_addr_table
