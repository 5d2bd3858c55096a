-- ===== src/Protocol/Icmp/Laws.antt =====
-- protocol/icmp.go: ParseIcmpPkt and BuildIcmpPkt on one another's results.
use halo.Base.{
  ℕ, ◌↔◌, ◌+◌, List, [], ◌∷◌, ◌≡◌, ◌≤◌, refl, arith, length, at, slice, be16, be16_bytes, bytes16,
  drop, true, All, IsByte, IsU16,
}
use halo.Base.{ok}
use halo.Protocol.Utils.{get_check_sum}
use halo.Protocol.Utils.Sums.{seal, set_word, word_sum-le}
use halo.Protocol.Icmp.{IcmpPkt, parse_icmp_pkt, build_icmp_pkt, known_icmp_type}

-- The fields are in the ranges of their Go types, and the sizes are those that the builder asks for.
pub record IsIcmpPkt (p : IcmpPkt) : Type 0 where
  pub known : known_icmp_type p.icmp_type ≡ true
  pub id_length : length p.icmp_id ≡ 2
  pub id_bytes : All IsByte p.icmp_id
  pub seq : IsU16 p.icmp_seq
  pub short : length p.payload ≤ 1472
  pub payload_bytes : All IsByte p.payload

known_icmp_type-IsByte : (t : ℕ) → known_icmp_type t ≡ true → IsByte t
known_icmp_type-IsByte t h = ground arith

-- What the builder returns, and what the parser makes of it.
abbrev ReadsBack : IcmpPkt → Type 0
ReadsBack p =
    (bytes : List ℕ) × (build_icmp_pkt [] p ≡ ok bytes)
    × (length bytes ≡ length p.payload + 8)
    × (parse_icmp_pkt bytes ≡ ok p)

module _ (t i0 i1 seq : ℕ) (payload : List ℕ) where
  abbrev raw : List ℕ
  raw = t ∷ 0x00 ∷ 0x00 ∷ 0x00 ∷ i0 ∷ i1 ∷ bytes16 seq payload

  abbrev packet : IcmpPkt
  packet = record { payload = payload; icmp_type = t; icmp_id = i0 ∷ i1 ∷ []; icmp_seq = seq }

  sealed_verifies : IsIcmpPkt packet → get_check_sum (set_word raw 2 (get_check_sum raw)) ≡ 0
  sealed_verifies v =
      seal raw 1
        (omega (arith, word_sum-le payload v.payload_bytes, known_icmp_type-IsByte t v.known))
        (omega arith) refl refl

  packet-ReadsBack : IsIcmpPkt packet → ReadsBack packet
  unfolding parse_icmp_pkt build_icmp_pkt
  packet-ReadsBack v =
      let s = sealed_verifies v in
      (
        set_word raw 2 (get_check_sum raw),
        ground arith,
        omega arith,
        ground (arith, s, be16_bytes seq),
      )

fields-ReadsBack :
    (t seq : ℕ) (id payload : List ℕ)
    → IsIcmpPkt (record { payload = payload; icmp_type = t; icmp_id = id; icmp_seq = seq })
    → ReadsBack (record { payload = payload; icmp_type = t; icmp_id = id; icmp_seq = seq })
fields-ReadsBack t seq (i0 ∷ i1 ∷ []) payload v = packet-ReadsBack t i0 i1 seq payload v
fields-ReadsBack t seq [] payload v = absurd (omega (arith, v.id_length))
fields-ReadsBack t seq (i0 ∷ []) payload v = absurd (omega (arith, v.id_length))
fields-ReadsBack t seq (i0 ∷ i1 ∷ i2 ∷ id) payload v = absurd (omega (arith, v.id_length))

-- A message whose fields are in the ranges of their types, with a known type, a two-byte
-- identifier and at most 1472 payload bytes, is built in 8 bytes more than its payload, and the
-- parser verifies its checksum and reads back the same message.
pub parse-build_icmp :
    (p : IcmpPkt)
    → IsIcmpPkt p
    → (bytes : List ℕ) × (build_icmp_pkt [] p ≡ ok bytes)
      × (length bytes ≡ length p.payload + 8)
      × (parse_icmp_pkt bytes ≡ ok p)
parse-build_icmp p v = fields-ReadsBack p.icmp_type p.icmp_seq p.icmp_id p.payload v

-- The parser returns `p` exactly on slices of 8 to 1480 bytes with a known type, code zero and
-- a checksum that verifies, and then each field is the bytes at its offset.
pub parse_icmp_iff :
    (pkt : List ℕ) (p : IcmpPkt)
    → (parse_icmp_pkt pkt ≡ ok p) ↔ (
        (8 ≤ length pkt)
        × (length pkt ≤ 1480)
        × (known_icmp_type p.icmp_type ≡ true)
        × (at pkt 1 ≡ 0)
        × (get_check_sum pkt ≡ 0)
        × (at pkt 0 ≡ p.icmp_type)
        × (slice 4 6 pkt ≡ p.icmp_id)
        × (be16 (at pkt 6) (at pkt 7) ≡ p.icmp_seq)
        × (drop 8 pkt ≡ p.payload))
unfolding parse_icmp_pkt
parse_icmp_iff pkt p = ground arith
