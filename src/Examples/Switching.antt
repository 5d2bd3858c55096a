-- ===== src/Examples/Switching.antt =====
-- A switch of three ports in two VLANs.
use halo.Base.{
  ℕ, true, List, [], ◌∷◌, ◌++◌, Option, none, some, ◌≡◌, ◌↔◌, refl, ap, sym, length, some_inj,
  arith, replicate, map,
}
use halo.Base.{ok}
use mathlib.Core.List.{Memᴰ}
use halo.Protocol.Utils.{MacAddr}
use halo.Protocol.Ethernet.{EthFrm, parse_eth_frm, build_eth_frm, pad_frame}
use halo.Engine.Switch.{
  learn_forward, enter, Switch, SwitchPort, SwitchMacAddr, Room, bytes_key, mac_key, init_switch,
  rx_ethernet, handle_ethernet, flood, tx_ethernet,
}
use halo.Mem.StaticString.{set_64, get_64}
use halo.Engine.Switch.Learned.{IsRoom, emission, others}
use halo.Engine.Switch.Steps.{AllNamed, done, named, Reach, here, next, time}
use halo.Engine.Switch.Floods.{IsOther, multicast_flooded}
use halo.Engine.Switch.Race.{unwritten_cell_panics}
use halo.Engine.Switch.Unicast.{answer_unicast}

abbrev left_port : SwitchPort
left_port = record { name = 97 ∷ []; vlan_id = 1 }

abbrev right_port : SwitchPort
right_port = record { name = 98 ∷ []; vlan_id = 1 }

abbrev apart_port : SwitchPort
apart_port = record { name = 99 ∷ []; vlan_id = 2 }

abbrev config : List SwitchPort
config = left_port ∷ right_port ∷ apart_port ∷ []

config-AllNamed : AllNamed config
config-AllNamed =
    named (λ e. absurd (cc)) (omega arith)
      (named (λ e. absurd (cc)) (omega arith) (named (λ e. absurd (cc)) (omega arith) done))

abbrev ends_of : ℕ → MacAddr
ends_of n = record { m0 = 2; m1 = 0; m2 = 0; m3 = 0; m4 = 0; m5 = n }

-- Memory that nothing has written to yet.
abbrev unwritten : SwitchMacAddr
unwritten = record { mac_addr = ends_of 7; net_if = replicate 64 7; create_time = 7 }

abbrev room : Room
room = record { cell = some unwritten; slot = true }

room-IsRoom : IsRoom room
room-IsRoom c e = ap (λ z. length z.net_if) (sym (some_inj e))

abbrev broadcast_frm : List ℕ
broadcast_frm = replicate 6 255 ++ (2 ∷ 0 ∷ 0 ∷ 0 ∷ 0 ∷ 1 ∷ 8 ∷ 6 ∷ replicate 46 5)

abbrev answer_frm : List ℕ
answer_frm = (2 ∷ 0 ∷ 0 ∷ 0 ∷ 0 ∷ 1 ∷ 2 ∷ 0 ∷ 0 ∷ 0 ∷ 0 ∷ 2 ∷ 8 ∷ 6 ∷ replicate 46 9)

abbrev broadcast_eth : EthFrm
broadcast_eth = record {
  payload = replicate 46 5;
  dst_mac = record { m0 = 255; m1 = 255; m2 = 255; m3 = 255; m4 = 255; m5 = 255 };
  src_mac = ends_of 1;
  eth_proto = 0x0806;
}

abbrev answer_eth : EthFrm
answer_eth = record {
  payload = replicate 46 9;
  dst_mac = ends_of 1;
  src_mac = ends_of 2;
  eth_proto = 0x0806;
}

parsed_broadcast : parse_eth_frm broadcast_frm ≡ ok broadcast_eth
unfolding parse_eth_frm
parsed_broadcast = refl

parsed_answer : parse_eth_frm answer_frm ≡ ok answer_eth
unfolding parse_eth_frm
parsed_answer = refl

abbrev started : Switch
unfolding init_switch
started = record (init_switch config 100) { time_now = 160 }

started-Reach : Reach (init_switch config 100) started
unfolding started init_switch
started-Reach = next here (time _ 160)

multicast_flooded_example :
    (s' : Switch) × (rx_ethernet room left_port broadcast_frm started ≡ some s')
    × (s'.sent
        ≡ started.sent ++ map (emission broadcast_eth) (others left_port started.switch_port_map))
    × ((p : SwitchPort)
        → Memᴰ p (others left_port started.switch_port_map)
          ↔ (((key : List ℕ) × Memᴰ (key, p) started.switch_port_map) × IsOther left_port p))
unfolding started init_switch
multicast_flooded_example =
    multicast_flooded config 100 started room left_port (97 ∷ []) broadcast_frm unwritten
      broadcast_eth config-AllNamed started-Reach room-IsRoom refl parsed_broadcast refl refl refl

abbrev or_started : Option Switch → Switch
or_started none = started
or_started (some s) = s

abbrev after_broadcast : Switch
after_broadcast = or_started (rx_ethernet room left_port broadcast_frm started)

answer_unicast_example :
    (s'' : Switch) × (rx_ethernet room right_port answer_frm after_broadcast ≡ some s'')
    × (s''.sent ≡ after_broadcast.sent ++ (emission answer_eth left_port ∷ []))
unfolding started init_switch rx_ethernet handle_ethernet flood tx_ethernet parse_eth_frm
    build_eth_frm pad_frame set_64 get_64
answer_unicast_example =
    answer_unicast config 100 started after_broadcast room room left_port right_port (97 ∷ [])
      (98 ∷ []) broadcast_frm answer_frm unwritten unwritten broadcast_eth answer_eth
      config-AllNamed started-Reach room-IsRoom room-IsRoom refl refl parsed_broadcast parsed_answer
      refl refl (λ e. absurd (ground (arith, ap (λ z. z.m5) e))) refl refl refl refl

unwritten_cell_panics_example :
    ((s' : Switch) × (s'' : Switch) × (rx_ethernet room left_port broadcast_frm started ≡ some s')
      × (rx_ethernet room right_port answer_frm s' ≡ some s''))
    × ((t : Switch) × (enter room (ends_of 1) started ≡ some (unwritten, t))
        × (rx_ethernet room left_port broadcast_frm started
            ≡ learn_forward left_port broadcast_eth (some (unwritten, t)) started)
        × (rx_ethernet room right_port answer_frm t ≡ none))
unfolding started init_switch get_64
unwritten_cell_panics_example =
    unwritten_cell_panics config 100 started room room left_port right_port (97 ∷ []) (98 ∷ [])
      broadcast_frm answer_frm unwritten unwritten broadcast_eth answer_eth config-AllNamed
      started-Reach room-IsRoom room-IsRoom refl refl parsed_broadcast parsed_answer refl refl
      (λ e. absurd (ground (arith, ap (λ z. z.m5) e))) refl refl refl refl refl
