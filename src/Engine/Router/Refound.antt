-- ===== src/Engine/Router/Refound.antt =====
-- engine/ipv4_engine.go: a new flow is found again from the WAN side.
use halo.Base.{ℕ, Bool, ◌≡◌, none, some, ap, ◌∙◌, arith, nat_key}
use halo.Protocol.Ipv4.{iph_proto_udp}
use halo.Engine.NatKey.{NatFlow, flow_key}
use halo.Engine.Nat.{
  Nat, flow_hash, nat_get_flow_by_wan, check_nat_port_mapping, port_taken, wan_to_lan, touch,
  touch_found, write_flow,
}
use halo.Engine.Nat.Create.{Established, found_by_wan}
use halo.Engine.Router.{name_key}

module _ (v j : Nat) (remote_ip remote_port lan_ip lan_port : ℕ) (f : NatFlow)
    (est : Established v
      (flow_hash v remote_ip remote_port lan_ip lan_port iph_proto_udp)
      f
      j) where
  -- Another interface's view of the tables, at another time.
  module _ (ip now : ℕ) (tcp udp : ℕ → Bool) where
    abbrev later : Nat
    later = record j { ip_addr = ip; tcp_service_map = tcp; udp_service_map = udp; time_now = now }

    abbrev refreshed : NatFlow
    refreshed = record f { last_alive_time = now }

    abbrev touched : Nat
    touched = record later { flows = write_flow v.next_flow (some refreshed) j.flows }

    -- The port of a new flow has no static mapping.
    pub unmapped_port :
        check_nat_port_mapping later wan_to_lan v.ip_addr f.wan_port iph_proto_udp ≡ none
    unfolding port_taken check_nat_port_mapping
    unmapped_port = rw est.same_mapping (ground (arith, est.free))

    pub found_later :
        nat_get_flow_by_wan later remote_ip remote_port v.ip_addr f.wan_port iph_proto_udp
        ≡ (some refreshed, touched)
    unfolding nat_get_flow_by_wan
    found_later =
        ap (touch_found later)
          (found_by_wan v j remote_ip remote_port lan_ip lan_port iph_proto_udp f est)
        ∙ ap (touch later v.next_flow) est.cell
