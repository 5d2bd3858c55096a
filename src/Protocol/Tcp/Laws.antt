-- ===== src/Protocol/Tcp/Laws.antt =====
-- protocol/tcp.go: ParseTcpPkt and BuildTcpPkt on one another's results.
use halo.Base.{
  ℕ, Bool, ◌+◌, ◌*◌, ◌/◌, List, [], ◌∷◌, ◌≡◌, ◌≢◌, ◌≤◌, ◌<◌, ◌⊎◌, inl, inr, refl, arith, length,
  drop, at, be16, ap, sym, ==_iff, ◌∙◌, be16_bytes, be32_bytes, bytes16, bytes32, true, false, All,
  IsByte, IsU16, IsU32, u8, shr, if◌then◌else◌, ◌==◌, ltb-false,
}
use native.Mathlib.Decide.{ℕ_discrete}
use halo.Base.{ok, err}
use halo.Protocol.Utils.{get_check_sum}
use halo.Protocol.Utils.Sums.{seal, set_word, word_sum-le}
use halo.Protocol.Ipv4.{Ipv4AddrPair}
use halo.Protocol.Ipv4.Laws.{IsIpv4Addr}
use halo.Protocol.Tcp.{
  TcpPkt, has_syn, tcp_header_len, parse_tcp_pkt, build_tcp_pkt, tcp_sum_data, read_tcp_options,
  finish_tcp_pkt, tcp_fields, tcp_mss_option,
}

-- The fields are in the ranges of their types, a maximum segment size is only on a SYN, and the
-- segment fits 1480 bytes.
pub record IsTcpPkt (p : TcpPkt) : Type 0 where
  pub src : IsU16 p.src_port
  pub dst : IsU16 p.dst_port
  pub seq : IsU32 p.seq_num
  pub ack : IsU32 p.ack_num
  pub flag : IsByte p.flags
  pub win : IsU16 p.window
  pub segment : IsU16 p.mss
  pub syn : (p.mss ≡ 0) ⊎ (has_syn p.flags ≡ true)
  pub short : length p.payload + tcp_header_len p ≤ 1480
  pub bytes : All IsByte p.payload

-- The fixed header around the offset byte and the checksum bytes, and what follows it.
abbrev pub tcp_header_bytes : ℕ → ℕ → ℕ → TcpPkt → List ℕ → List ℕ
tcp_header_bytes off c0 c1 p rest = bytes16 p.src_port (
    bytes16 p.dst_port (
      bytes32 p.seq_num
        (bytes32 p.ack_num (off ∷ p.flags ∷ bytes16 p.window (c0 ∷ c1 ∷ 0x00 ∷ 0x00 ∷ rest)))))

-- The two shapes: with no option, and with the option of a SYN.
abbrev pub tcp_shape : ℕ → ℕ → TcpPkt → List ℕ
tcp_shape c0 c1 p =
    if p.mss == 0
    then tcp_header_bytes 0x50 c0 c1 p p.payload
    else tcp_header_bytes 0x60 c0 c1 p (2 ∷ 4 ∷ bytes16 p.mss p.payload)

abbrev pub tcp_sum : Bool → TcpPkt → Ipv4AddrPair → ℕ
tcp_sum check p addr =
    if check
    then get_check_sum (tcp_sum_data addr (length (tcp_shape 0 0 p)) (tcp_shape 0 0 p))
    else 0

abbrev pub tcp_bytes : Bool → TcpPkt → Ipv4AddrPair → List ℕ
tcp_bytes check p addr = let sum : ℕ = tcp_sum check p addr in tcp_shape (u8 (shr sum 8)) (u8 sum) p

module _ (p : TcpPkt) (addr : Ipv4AddrPair) (v : IsTcpPkt p) where
  pub build_tcp_bytes : (check : Bool) → build_tcp_pkt check [] p addr ≡ ok (tcp_bytes check p addr)
  unfolding build_tcp_pkt
  build_tcp_bytes true = ground arith
  build_tcp_bytes false = ground arith

  -- The segment around any options and payload verifies with its own checksum.
  segment_verifies :
      (off : ℕ) (rest : List ℕ)
      → IsIpv4Addr addr.src_addr
      → IsIpv4Addr addr.dst_addr
      → off < 256
      → All IsByte rest
      → length rest ≤ 1480
      → let bytes = tcp_header_bytes off 0 0 p rest in
        let raw = tcp_sum_data addr (length bytes) bytes in
        get_check_sum (set_word raw 28 (get_check_sum raw)) ≡ 0
  segment_verifies off rest s d o b n =
      let bytes = tcp_header_bytes off 0 0 p rest in
      seal (tcp_sum_data addr (length bytes) bytes) 14 (omega (arith, word_sum-le rest b))
        (omega arith) refl refl

  no_option :
      (c0 c1 : ℕ) (syn : Bool) (rest : List ℕ)
      → read_tcp_options 20 (tcp_header_bytes 0x50 c0 c1 p rest) 20 syn 20 0 ≡ ok 0
  unfolding read_tcp_options
  no_option c0 c1 syn rest = refl

  option_run :
      (c0 c1 hi lo : ℕ) (rest : List ℕ)
      → read_tcp_options 24 (tcp_header_bytes 0x60 c0 c1 p (2 ∷ 4 ∷ hi ∷ lo ∷ rest)) 24 true 20 0
        ≡ (if be16 hi lo == 0 then err tcp_mss_option else ok (be16 hi lo))
  unfolding read_tcp_options
  option_run c0 c1 hi lo rest = refl

  one_option :
      (c0 c1 : ℕ) (rest : List ℕ)
      → p.mss ≢ 0
      → read_tcp_options 24
          (tcp_header_bytes 0x60 c0 c1 p (2 ∷ 4 ∷ bytes16 p.mss rest))
          24
          true
          20
          0
        ≡ ok p.mss
  one_option c0 c1 rest n =
      ground (arith, option_run c0 c1 (u8 (shr p.mss 8)) (u8 p.mss) rest, be16_bytes p.mss)

  -- The fixed fields are read back, whatever the offset and checksum bytes are.
  fields_read :
      (off c0 c1 header_len : ℕ) (rest : List ℕ)
      → drop header_len (tcp_header_bytes off c0 c1 p rest) ≡ p.payload
      → tcp_fields (tcp_header_bytes off c0 c1 p rest) header_len p.mss ≡ p
  fields_read off c0 c1 header_len rest e = λ i. record {
    payload = e i;
    src_port = be16_bytes p.src_port v.src i;
    dst_port = be16_bytes p.dst_port v.dst i;
    seq_num = be32_bytes p.seq_num v.seq i;
    ack_num = be32_bytes p.ack_num v.ack i;
    flags = p.flags;
    window = be16_bytes p.window v.win i;
    mss = p.mss;
  }

finish_verified :
    (check : Bool) (pkt : List ℕ) (addr : Ipv4AddrPair) (header_len mss : ℕ)
    → (check ≡ true → get_check_sum (tcp_sum_data addr (length pkt) pkt) ≡ 0)
    → finish_tcp_pkt check pkt addr header_len mss ≡ ok (tcp_fields pkt header_len mss)
unfolding finish_tcp_pkt
finish_verified true pkt addr header_len mss c = rw (c refl)
finish_verified false pkt addr header_len mss c = refl

parse_finish :
    (check : Bool) (pkt : List ℕ) (addr : Ipv4AddrPair) (header_len mss : ℕ)
    → at pkt 12 / 16 * 4 ≡ header_len
    → 20 ≤ header_len
    → header_len ≤ length pkt
    → length pkt ≤ 1480
    → read_tcp_options header_len pkt header_len (has_syn (at pkt 13)) 20 0 ≡ ok mss
    → parse_tcp_pkt check pkt addr ≡ finish_tcp_pkt check pkt addr header_len mss
unfolding parse_tcp_pkt
parse_finish check pkt addr header_len mss e lo hi n o =
    rw
      (
        e,
        ltb-false (length pkt) 20 (omega arith),
        ltb-false 1480 (length pkt) n,
        ltb-false header_len 20 lo,
        ltb-false (length pkt) header_len hi,
        o,
      )
      (ap (λ n. finish_tcp_pkt check pkt addr n mss) e)

module _ (p : TcpPkt) (addr : Ipv4AddrPair) (v : IsTcpPkt p) (s : IsIpv4Addr addr.src_addr)
    (d : IsIpv4Addr addr.dst_addr) (off : ℕ) (rest : List ℕ) (o : off < 256) (b : All IsByte rest)
    (n : length rest ≤ 1460) where
  -- The checksum that the builder writes around these options and payload.
  abbrev own_sum : Bool → ℕ
  own_sum check =
      let raw = tcp_header_bytes off 0 0 p rest in
      if check then get_check_sum (tcp_sum_data addr (length raw) raw) else 0

  abbrev own_bytes : Bool → List ℕ
  own_bytes check = tcp_header_bytes off (u8 (shr (own_sum check) 8)) (u8 (own_sum check)) p rest

  own_verifies :
      (check : Bool)
      → check ≡ true
      → get_check_sum (tcp_sum_data addr (length (own_bytes check)) (own_bytes check)) ≡ 0
  own_verifies true e = segment_verifies p addr v off rest s d o b (omega arith)
  own_verifies false e = cc

  own_read :
      (check : Bool) (header_len : ℕ)
      → off / 16 * 4 ≡ header_len
      → 20 ≤ header_len
      → header_len ≤ length rest + 20
      → read_tcp_options header_len (own_bytes check) header_len (has_syn p.flags) 20 0 ≡ ok p.mss
      → drop header_len (own_bytes check) ≡ p.payload
      → parse_tcp_pkt check (own_bytes check) addr ≡ ok p
  own_read check header_len e lo hi r q =
      parse_finish check (own_bytes check) addr header_len p.mss e lo (omega arith) (omega arith) r
      ∙ finish_verified check (own_bytes check) addr header_len p.mss (own_verifies check)
      ∙ ap ok (
          fields_read p addr v off (u8 (shr (own_sum check) 8)) (u8 (own_sum check)) header_len rest
            q)

module _ (p : TcpPkt) (addr : Ipv4AddrPair) (v : IsTcpPkt p) (s : IsIpv4Addr addr.src_addr)
    (d : IsIpv4Addr addr.dst_addr) where
  plain_read : (check : Bool) → p.mss ≡ 0 → parse_tcp_pkt check (tcp_bytes check p addr) addr ≡ ok p
  plain_read check z =
      let c : ℕ = own_sum p addr v s d 0x50 p.payload (omega arith) v.bytes (ground arith) check in
      rw ((==_iff p.mss 0).1 z) (
        own_read p addr v s d 0x50 p.payload (omega arith) v.bytes (ground arith) check 20 refl
          (omega arith) (omega arith)
          (no_option p addr v (u8 (shr c 8)) (u8 c) (has_syn p.flags) p.payload ∙ ap ok (sym z))
          refl)

  syn_flag : p.mss ≢ 0 → has_syn p.flags ≡ true
  syn_flag z = elim v.syn [ inl e ↦ absurd (z e) | inr e ↦ e ]

  syn_read : (check : Bool) → p.mss ≢ 0 → parse_tcp_pkt check (tcp_bytes check p addr) addr ≡ ok p
  syn_read check z =
      let rest : List ℕ = 2 ∷ 4 ∷ bytes16 p.mss p.payload in
      let b : All IsByte rest =
        (omega arith, (omega arith, (omega arith, (omega arith, v.bytes)))) in
      let n : length rest ≤ 1460 = ground arith in
      let c : ℕ = own_sum p addr v s d 0x60 rest (omega arith) b n check in
      let bytes : List ℕ = own_bytes p addr v s d 0x60 rest (omega arith) b n check in
      let e : (p.mss == 0) ≡ false = ground arith in
      rw e (
        own_read p addr v s d 0x60 rest (omega arith) b n check 24 refl (omega arith) (omega arith)
          (ap (λ y. read_tcp_options 24 bytes 24 y 20 0) (syn_flag z)
            ∙ one_option p addr v (u8 (shr c 8)) (u8 c) p.payload z)
          refl)

  parse_tcp_bytes : (check : Bool) → parse_tcp_pkt check (tcp_bytes check p addr) addr ≡ ok p
  parse_tcp_bytes check = elim (ℕ_discrete p.mss 0) [
    | yes z ↦ plain_read check z
    | no z ↦ syn_read check z
  ]

length-tcp_bytes :
    (check : Bool) (p : TcpPkt) (addr : Ipv4AddrPair)
    → length (tcp_bytes check p addr) ≡ length p.payload + tcp_header_len p
length-tcp_bytes check p addr = ground arith

-- A segment whose fields are in the ranges of their types, with a maximum segment size only on a
-- SYN, that fits 1480 bytes, is built in 20 bytes more than its payload, or 24 with the option, and
-- the parser verifies it between the same addresses and reads back every field, whether checksums
-- are enabled or not.
pub parse-build_tcp :
    (check : Bool) (p : TcpPkt) (addr : Ipv4AddrPair)
    → IsTcpPkt p
    → IsIpv4Addr addr.src_addr
    → IsIpv4Addr addr.dst_addr
    → (bytes : List ℕ) × (build_tcp_pkt check [] p addr ≡ ok bytes)
      × (length bytes ≡ length p.payload + tcp_header_len p)
      × (parse_tcp_pkt check bytes addr ≡ ok p)
parse-build_tcp check p addr v s d = (
  tcp_bytes check p addr,
  build_tcp_bytes p addr v check,
  length-tcp_bytes check p addr,
  parse_tcp_bytes p addr v s d check,
)
