-- ===== src/Protocol/Ipv4/Laws.antt =====
-- protocol/ipv4.go: ParseIpv4Pkt and BuildIpv4Pkt on one another's results.
use halo.Base.{if◌then◌else◌}
use halo.Base.{
  ℕ, Bool, ◌+◌, ◌++◌, List, [], ◌∷◌, ◌≡◌, ◌≤◌, ◌<◌, refl, arith, length, length-append, take-append,
  be16_bytes, bytes16, true, false, IsByte, u8, u16, u32, shr,
}
use halo.Base.{ok}
use halo.Protocol.Utils.{Ipv4Addr, get_check_sum, ip_bytes}
use halo.Protocol.Utils.Sums.{seal, set_word}
use halo.Protocol.Ipv4.{Ipv4Pkt, parse_ipv4_pkt, build_ipv4_pkt, known_ip_proto}

abbrev pub IsIpv4Addr : Ipv4Addr → Type 0
IsIpv4Addr a = IsByte a.a0 × IsByte a.a1 × IsByte a.a2 × IsByte a.a3

-- The fields are in the ranges of their types, and the sizes are those that the builder asks for.
pub record IsIpv4Pkt (p : Ipv4Pkt) : Type 0 where
  pub known : known_ip_proto p.ip_head_proto ≡ true
  pub src : IsIpv4Addr p.src_addr
  pub dst : IsIpv4Addr p.dst_addr
  pub short : length p.payload ≤ 1480

-- The 20 bytes of the header around the checksum bytes `c`.
abbrev pub header_bytes : ℕ → ℕ → ℕ → ℕ → ℕ → Ipv4Pkt → List ℕ → List ℕ
header_bytes len id ttl c0 c1 p rest =
    0x45
    ∷ 0x00
    ∷ bytes16 len (
        bytes16 id (
          0x00
          ∷ 0x00
          ∷ ttl
          ∷ p.ip_head_proto
          ∷ c0
          ∷ c1
          ∷ ip_bytes p.src_addr (ip_bytes p.dst_addr rest)))

known_ip_proto-IsByte : (t : ℕ) → known_ip_proto t ≡ true → IsByte t
known_ip_proto-IsByte t h = ground arith

header_verifies :
    (len id ttl : ℕ) (p : Ipv4Pkt)
    → ttl < 256
    → IsIpv4Pkt p
    → let raw = header_bytes len id ttl 0 0 p [] in
      get_check_sum (set_word raw 10 (get_check_sum raw)) ≡ 0
header_verifies len id ttl p h v =
    seal (header_bytes len id ttl 0 0 p []) 5
      (omega (arith, known_ip_proto-IsByte p.ip_head_proto v.known)) (omega arith) refl refl

-- The checksum field of a header with these fields, zero where checksums are disabled.
abbrev pub header_sum : Bool → ℕ → ℕ → ℕ → Ipv4Pkt → ℕ
header_sum check len id ttl p =
    if check then get_check_sum (header_bytes len id ttl 0 0 p []) else 0

-- A packet in transit with the identifier `id`, the time to live `ttl`, and `rest` in the place
-- of its payload.
abbrev pub ipv4_bytes : Bool → ℕ → ℕ → Ipv4Pkt → List ℕ → List ℕ
ipv4_bytes check id ttl p rest =
    let len : ℕ = u16 (length p.payload + 20) in
    let sum : ℕ = header_sum check len id ttl p in
    header_bytes len id ttl (u8 (shr sum 8)) (u8 sum) p rest

pub build_ipv4_bytes :
    (check : Bool) (iph_id : ℕ) (p : Ipv4Pkt)
    → length p.payload ≤ 1480
    → build_ipv4_pkt check iph_id [] p
      ≡ (ok (ipv4_bytes check (u16 (u32 (iph_id + 1))) 0x80 p p.payload), u32 (iph_id + 1))
unfolding build_ipv4_pkt
build_ipv4_bytes true iph_id p h = ground arith
build_ipv4_bytes false iph_id p h = ground arith

-- Whatever its identifier and time to live, a packet in transit is read back.
pub parse_ipv4_bytes :
    (check : Bool) (id ttl : ℕ) (p : Ipv4Pkt) (padding : List ℕ)
    → ttl < 256
    → IsIpv4Pkt p
    → length p.payload + length padding ≤ 1480
    → parse_ipv4_pkt check (ipv4_bytes check id ttl p (p.payload ++ padding)) ≡ ok p
unfolding parse_ipv4_pkt
parse_ipv4_bytes true id ttl p padding t v h = ground (
  arith,
  length-append p.payload padding,
  header_verifies (u16 (length p.payload + 20)) id ttl p t v,
  take-append (length p.payload) p.payload padding refl,
  be16_bytes (length p.payload + 20),
)
parse_ipv4_bytes false id ttl p padding t v h = ground (
  arith,
  length-append p.payload padding,
  take-append (length p.payload) p.payload padding refl,
  be16_bytes (length p.payload + 20),
)

-- A packet whose fields are in the ranges of their types, with a known protocol and at most 1480
-- payload bytes, is built with the next identifier in 20 bytes more than its payload. The parser
-- verifies it and reads it back, also with link-layer padding behind it up to 1500 bytes, whether
-- checksums are enabled or not.
pub parse-build_ipv4 :
    (check : Bool) (iph_id : ℕ) (p : Ipv4Pkt) (padding : List ℕ)
    → IsIpv4Pkt p
    → length p.payload + length padding ≤ 1480
    → (bytes : List ℕ) × (build_ipv4_pkt check iph_id [] p ≡ (ok bytes, u32 (iph_id + 1)))
      × (length bytes ≡ length p.payload + 20)
      × (parse_ipv4_pkt check (bytes ++ padding) ≡ ok p)
parse-build_ipv4 check iph_id p padding v h =
    let id : ℕ = u16 (u32 (iph_id + 1)) in
    (
      ipv4_bytes check id 0x80 p p.payload,
      build_ipv4_bytes check iph_id p v.short,
      omega arith,
      parse_ipv4_bytes check id 0x80 p padding (omega arith) v h,
    )
