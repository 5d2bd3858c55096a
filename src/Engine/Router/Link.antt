-- ===== src/Engine/Router/Link.antt =====
-- engine/ethernet_engine.go: TxEthernet of a router interface.
use Prim.Native.String.{String}
use halo.Base.{ℕ, Bool, true, false, List, []}
use halo.Base.{ok, err, Result}
use halo.Protocol.Utils.{MacAddr}
use halo.Protocol.Ethernet.{EthError, build_eth_frm}
use halo.Engine.Router.{M, ◌>>=◌, ◌>>◌, pure, net_if, transmit}

abbrev pub broadcast_mac_addr : MacAddr
broadcast_mac_addr = record { m0 = 0xff; m1 = 0xff; m2 = 0xff; m3 = 0xff; m4 = 0xff; m5 = 0xff }

abbrev pub send_frame : String → Result EthError (List ℕ) → M Bool
send_frame name (err e) = pure false
send_frame name (ok frm) = do transmit name frm; pure true

unfoldable pub tx_ethernet : String → List ℕ → MacAddr → ℕ → M Bool
tx_ethernet name eth_payload dst_mac proto = do
  i ← net_if name
  send_frame name (
      build_eth_frm [] (record {
        payload = eth_payload;
        dst_mac = dst_mac;
        src_mac = i.mac_addr;
        eth_proto = proto;
      }))
