-- ===== src/Protocol/Dhcp/Message.antt =====
-- protocol/dhcp.go: ParseDhcpPkt on what BuildDhcpPkt returns.
use halo.Base.{ℕ, ◌≡◌, ◌+◌, refl, ap, arith, List, [], ◌∷◌, ◌++◌, some, length, ok, ltb-false}
use mathlib.Core.List.{append-nil}
use mathlib.Core.Path.{subst}
use halo.Protocol.Utils.{MacAddr, Ipv4Addr}
use halo.Protocol.Dhcp.{
  DhcpOption, DhcpPkt, build_dhcp_option, parse_dhcp_option, parse_dhcp_pkt, build_dhcp_pkt, empty,
}
use halo.Protocol.Dhcp.Laws.{receive_all, parse-build_dhcp_option}
use halo.Base.{◌∙◌}
use halo.Protocol.Dhcp.{ip_bytes}
use halo.Protocol.Dhcp.{mac_bytes}
use halo.Base.{replicate}

-- What the builder returns, and what the parser makes of it.
abbrev MessageReadsBack : DhcpPkt → List DhcpOption → Type 0
MessageReadsBack p os =
    (bytes : List ℕ) × (build_dhcp_pkt [] p os ≡ ok bytes)
    × (length bytes ≡ length (build_dhcp_option os) + 240)
    × (parse_dhcp_pkt bytes ≡ ok (p, some (receive_all os empty)))

parse_all :
    (os : List DhcpOption) → parse_dhcp_option (build_dhcp_option os) ≡ some (receive_all os empty)
parse_all os =
    subst (λ l. parse_dhcp_option l ≡ some (receive_all os empty))
      (append-nil (build_dhcp_option os)) (parse-build_dhcp_option os [])

module _ (boot t0 t1 t2 t3 : ℕ) (client your : Ipv4Addr) (mac : MacAddr) where
  abbrev message : DhcpPkt
  message = record {
    boot_msg_type = boot;
    transaction_id = t0 ∷ t1 ∷ t2 ∷ t3 ∷ [];
    client_ip_addr = client;
    your_ip_addr = your;
    client_mac_addr = mac;
  }

  -- The fixed part of a message, and the options behind it.
  abbrev fixed_part : List ℕ → List ℕ
  fixed_part options =
      boot
      ∷ 0x01
      ∷ 0x06
      ∷ 0x00
      ∷ t0
      ∷ t1
      ∷ t2
      ∷ t3
      ∷ 0x00
      ∷ 0x00
      ∷ 0x80
      ∷ 0x00
      ∷ ip_bytes client (
          ip_bytes your (
            0x00
            ∷ 0x00
            ∷ 0x00
            ∷ 0x00
            ∷ 0x00
            ∷ 0x00
            ∷ 0x00
            ∷ 0x00
            ∷ mac_bytes mac (replicate 202 0x00 ++ (0x63 ∷ 0x82 ∷ 0x53 ∷ 0x63 ∷ options))))

  fixed_part-parse :
      (options : List ℕ)
      → parse_dhcp_pkt (fixed_part options) ≡ ok (message, parse_dhcp_option options)
  unfolding parse_dhcp_pkt
  fixed_part-parse options = rw (ltb-false (length (fixed_part options)) 240 (omega arith)) refl

  message-MessageReadsBack : (os : List DhcpOption) → MessageReadsBack message os
  unfolding build_dhcp_pkt
  message-MessageReadsBack os = (
    fixed_part (build_dhcp_option os),
    refl,
    omega arith,
    fixed_part-parse (build_dhcp_option os) ∙ ap (λ o. ok (message, o)) (parse_all os),
  )

fields-MessageReadsBack :
    (boot : ℕ) (id : List ℕ) (client your : Ipv4Addr) (mac : MacAddr) (os : List DhcpOption)
    → length id ≡ 4
    → MessageReadsBack
        (record {
          boot_msg_type = boot;
          transaction_id = id;
          client_ip_addr = client;
          your_ip_addr = your;
          client_mac_addr = mac;
        })
        os
fields-MessageReadsBack boot (t0 ∷ t1 ∷ t2 ∷ t3 ∷ []) client your mac os h =
    message-MessageReadsBack boot t0 t1 t2 t3 client your mac os
fields-MessageReadsBack boot [] client your mac os h = absurd (omega arith)
fields-MessageReadsBack boot (t0 ∷ []) client your mac os h = absurd (omega arith)
fields-MessageReadsBack boot (t0 ∷ t1 ∷ []) client your mac os h = absurd (omega arith)
fields-MessageReadsBack boot (t0 ∷ t1 ∷ t2 ∷ []) client your mac os h = absurd (omega arith)
fields-MessageReadsBack boot (t0 ∷ t1 ∷ t2 ∷ t3 ∷ t4 ∷ id) client your mac os h =
    absurd (omega arith)

-- A message with a four-byte transaction identifier is built in 240 bytes and its options, and the
-- parser reads back its fixed fields and, for the options, what a receiver stores of each.
pub parse-build_dhcp_pkt :
    (p : DhcpPkt) (os : List DhcpOption)
    → length p.transaction_id ≡ 4
    → (bytes : List ℕ) × (build_dhcp_pkt [] p os ≡ ok bytes)
      × (length bytes ≡ length (build_dhcp_option os) + 240)
      × (parse_dhcp_pkt bytes ≡ ok (p, some (receive_all os empty)))
parse-build_dhcp_pkt p os h =
    fields-MessageReadsBack p.boot_msg_type p.transaction_id p.client_ip_addr p.your_ip_addr
      p.client_mac_addr os h
