-- ===== src/Protocol/Icmp.antt =====
-- protocol/icmp.go: ICMP messages.
pub mod Laws
use halo.Base.{
  ℕ, Bool, ◌++◌, List, [], ◌∷◌, ltb, ◌==◌, ◌||◌, not, if◌then◌else◌, length, at, drop, slice, set,
  be16, bytes16, u8, shr,
}
use halo.Base.{ok, err, Result, Parsed}
use halo.Protocol.Utils.{get_check_sum}

abbrev pub icmp_request : ℕ
icmp_request = 0x08

abbrev pub icmp_reply : ℕ
icmp_reply = 0x00

abbrev pub icmp_ttl : ℕ
icmp_ttl = 0x0b

abbrev pub icmp_unknown : ℕ
icmp_unknown = 0xff

pub data IcmpError : Type 0 where
  icmp_length icmp_not_supported icmp_check_sum icmp_payload_too_long icmp_id_length : IcmpError

pub record IcmpPkt : Type 0 where
  pub payload : List ℕ
  pub icmp_type : ℕ
  pub icmp_id : List ℕ
  pub icmp_seq : ℕ

-- `IcmpPkt{IcmpType: ICMP_UNKNOWN}`
abbrev pub unknown_icmp_pkt : IcmpPkt
unknown_icmp_pkt = record { payload = []; icmp_type = icmp_unknown; icmp_id = []; icmp_seq = 0 }

-- The cases of the switch on the type.
abbrev pub known_icmp_type : ℕ → Bool
known_icmp_type t = t == icmp_request || (t == icmp_reply || t == icmp_ttl)

unfoldable pub parse_icmp_pkt : List ℕ → Parsed IcmpError IcmpPkt
parse_icmp_pkt pkt =
    if ltb (length pkt) 8 || ltb 1480 (length pkt)
    then err (unknown_icmp_pkt, icmp_length)
    else if not (known_icmp_type (at pkt 0))
    then err (unknown_icmp_pkt, icmp_not_supported)
    else if not (at pkt 1 == 0x00)
    then err (unknown_icmp_pkt, icmp_not_supported)
    else if not (get_check_sum pkt == 0)
    then err (unknown_icmp_pkt, icmp_check_sum)
    else ok (record {
      payload = drop 8 pkt;
      icmp_type = at pkt 0;
      icmp_id = slice 4 6 pkt;
      icmp_seq = be16 (at pkt 6) (at pkt 7);
    })

-- The message before the checksum is written into its bytes 2 and 3.
unfoldable pub icmp_unsealed : List ℕ → IcmpPkt → List ℕ
icmp_unsealed pkt packet =
    pkt
    ++ (packet.icmp_type
        ∷ 0x00
        ∷ 0x00
        ∷ 0x00
        ∷ (packet.icmp_id ++ bytes16 packet.icmp_seq packet.payload))

unfoldable pub build_icmp_pkt : List ℕ → IcmpPkt → Result IcmpError (List ℕ)
unfolding icmp_unsealed
build_icmp_pkt pkt packet =
    if ltb 1472 (length packet.payload)
    then err icmp_payload_too_long
    else if not (length packet.icmp_id == 2)
    then err icmp_id_length
    else let bytes = icmp_unsealed pkt packet in
      let sum = get_check_sum bytes in ok (set (set bytes 2 (u8 (shr sum 8))) 3 (u8 sum))
