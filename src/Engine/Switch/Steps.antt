-- ===== src/Engine/Switch/Steps.antt =====
-- engine/engine.go, engine/ethernet_engine.go: a switch from InitSwitch on, under any sequence of
-- received frames and ticks, each of which ends before the next one begins.
use mathlib.Core.Path.{subst}
use halo.Base.{
  ℕ, ◌≡◌, ◌≢◌, ◌≤◌, inl, inr, List, [], ◌∷◌, some, refl, sym, ap, ◌∙◌, arith, if_rule, some_inj,
  lookup, length, insert,
}
use halo.Base.{ok, err, Parsed}
use halo.Protocol.Utils.{MacAddr}
use halo.Protocol.Ethernet.{EthFrm, EthError, parse_eth_frm}
use halo.Engine.Switch.{
  Switch, SwitchPort, SwitchMacAddr, Room, bytes_key, mac_key, init_switch, put_ports,
  handle_parsed, rx_ethernet, clear_entries, aged, switch_mac_addr_clear,
}
use halo.Engine.Switch.Learned.{IsRoom, IsSwitch, erase_found, insert_cases, handled, payload_fits}

-- A frame on a port, and the ticks of SwitchMacAddrClear and Monitor.
pub data Step : Switch → Switch → Type 0 where
  received :
      (s s' : Switch) (g : Room) (name : List ℕ) (i : SwitchPort) (frm : List ℕ)
      → IsRoom g
      → lookup name s.switch_port_map ≡ some i
      → rx_ethernet g i frm s ≡ some s'
      → Step s s'
  cleared : (s : Switch) → Step s (switch_mac_addr_clear s)
  time : (s : Switch) (now : ℕ) → Step s (record s { time_now = now })

pub data Reach (s : Switch) : Switch → Type 0 where
  here : Reach s s
  next : {t u : Switch} → Reach s t → Step t u → Reach s u

-- The names that a configuration may use: not empty, and stored whole.
pub data AllNamed : List SwitchPort → Type 0 where
  done : AllNamed []
  named :
      {port : SwitchPort} {ports : List SwitchPort}
      → port.name ≢ []
      → length port.name ≤ 63
      → AllNamed ports
      → AllNamed (port ∷ ports)

pub rx_ethernet-IsSwitch :
    (g : Room) (i : SwitchPort) (name frm : List ℕ) (s : Switch)
    → IsRoom g
    → IsSwitch s
    → lookup name s.switch_port_map ≡ some i
    → (s' : Switch) × (rx_ethernet g i frm s ≡ some s')
      × IsSwitch s'
      × (s'.switch_port_map ≡ s.switch_port_map)
unfolding rx_ethernet
rx_ethernet-IsSwitch g i name frm s room v at_home = go (parse_eth_frm frm) refl
  where
    go :
        (p : Parsed EthError EthFrm)
        → parse_eth_frm frm ≡ p
        → (s' : Switch) × (handle_parsed g i p s ≡ some s')
          × IsSwitch s'
          × (s'.switch_port_map ≡ s.switch_port_map)
    go (err e) h = (s, refl, v, refl)
    go (ok eth) h = handled g i name s room v at_home eth (payload_fits frm eth h)

clear_entries-IsSwitch :
    (es : List (MacAddr × SwitchMacAddr)) (s : Switch) → IsSwitch s → IsSwitch (clear_entries es s)
unfolding clear_entries
clear_entries-IsSwitch [] s v = v
clear_entries-IsSwitch ((mac, e) ∷ es) s v = clear_entries-IsSwitch es _ (
    if_rule IsSwitch (aged s e)
      (λ y. record {
        ports = v.ports;
        known = λ j a h. v.known j a (erase_found mac j a s.switch_mac_addr_table h);
      })
      (λ n. v))

Step-IsSwitch : (s s' : Switch) → Step s s' → IsSwitch s → IsSwitch s'
unfolding switch_mac_addr_clear
Step-IsSwitch s s' (received _ _ g name i frm room at_home e) v =
    let (u, e', w, _) = rx_ethernet-IsSwitch g i name frm s room v at_home in
    subst IsSwitch (some_inj (sym e' ∙ e)) w
Step-IsSwitch s s' (cleared _) v = clear_entries-IsSwitch s.switch_mac_addr_table s v
Step-IsSwitch s s' (time _ now) v = record { ports = v.ports; known = v.known }

pub Reach-IsSwitch : (s s' : Switch) → Reach s s' → IsSwitch s → IsSwitch s'
Reach-IsSwitch s s' here v = v
Reach-IsSwitch s s' (next {t = t} r x) v = Step-IsSwitch t s' x (Reach-IsSwitch s t r v)

put_ports-named :
    (config : List SwitchPort) (m : List (List ℕ × SwitchPort))
    → AllNamed config
    → ((name : List ℕ) (port : SwitchPort)
        → lookup name m ≡ some port
        → (port.name ≡ name) × (name ≢ []) × (length name ≤ 63))
    → (name : List ℕ) (port : SwitchPort) → lookup name (put_ports config m) ≡ some port
    → (port.name ≡ name) × (name ≢ []) × (length name ≤ 63)
put_ports-named [] m c v name port h = v name port h
put_ports-named (p ∷ config) m (named a b c) v name port h =
    put_ports-named config (insert p.name p m) c
      (λ n q k. elim (insert_cases p.name n p q m k) [
        | inr o ↦ v n q o
        | inl (x, y) ↦
            (ap (λ z. z.name) (sym y) ∙ x, (λ z. a (x ∙ z)), subst (λ z. length z ≤ 63) x b)
      ])
      name port h

pub init_switch-IsSwitch :
    (config : List SwitchPort) (now : ℕ) → AllNamed config → IsSwitch (init_switch config now)
unfolding init_switch
init_switch-IsSwitch config now c = record {
  ports = put_ports-named config [] c (λ name port h. absurd (ground (arith, h)));
  known = λ mac e h. absurd (ground (arith, h));
}
