-- ===== src/Protocol/Tcp.antt =====
-- protocol/tcp.go: TCP segments, their options and their checksum over the IPv4 pseudo header.
pub mod Options
pub mod Laws
use halo.Base.{
  ℕ, Bool, zero, suc, true, ◌-◌, ◌+◌, ◌*◌, ◌/◌, ◌%◌, ◌^◌, ◌++◌, List, [], ◌∷◌, ltb, ◌==◌, ◌||◌,
  ◌&&◌, not, if◌then◌else◌, length, at, drop, set, be16, be32, bytes16, bytes32, u8, u16, shr,
}
use halo.Base.{ok, err, Result, Parsed, ◌>>=◌}
use halo.Protocol.Utils.{ip_bytes, get_check_sum}
use halo.Protocol.Ipv4.{Ipv4AddrPair}

abbrev pub tcp_flags_syn : ℕ
tcp_flags_syn = 0x02

-- `out_of_fuel` is no Go value: the loop over the options ran out of fuel.
pub data TcpError : Type 0 where
  tcp_length tcp_header_length tcp_option_length tcp_mss_option tcp_check_sum : TcpError
  tcp_buffer_not_empty tcp_mss_without_syn tcp_too_long out_of_fuel : TcpError

pub record TcpPkt : Type 0 where
  pub payload : List ℕ
  pub src_port : ℕ
  pub dst_port : ℕ
  pub seq_num : ℕ
  pub ack_num : ℕ
  pub flags : ℕ
  pub window : ℕ
  pub mss : ℕ

-- `TcpPkt{}`
abbrev pub zero_tcp_pkt : TcpPkt
zero_tcp_pkt = record {
  payload = [];
  src_port = 0;
  dst_port = 0;
  seq_num = 0;
  ack_num = 0;
  flags = 0;
  window = 0;
  mss = 0;
}

-- `flags & TCP_FLAGS_SYN != 0`: the second bit.
abbrev pub has_syn : ℕ → Bool
has_syn flags = flags / 2 % 2 == 1

-- `offset+2 > headerLen || pkt[offset+1] < 2 || offset+int(pkt[offset+1]) > headerLen`
abbrev pub bad_option_length : List ℕ → ℕ → ℕ → Bool
bad_option_length pkt header_len offset =
    ltb header_len (offset + 2)
    || (ltb (at pkt (offset + 1)) 2 || ltb header_len (offset + at pkt (offset + 1)))

-- `length != 4 || binary.BigEndian.Uint16(pkt[offset+2:offset+4]) == 0`
abbrev pub bad_mss_option : List ℕ → ℕ → Bool
bad_mss_option pkt offset =
    not (at pkt (offset + 1) == 4) || be16 (at pkt (offset + 2)) (at pkt (offset + 3)) == 0

-- The value of result.Mss after an option at `offset`.
abbrev pub next_mss : List ℕ → Bool → ℕ → ℕ → ℕ
next_mss pkt syn offset mss =
    if at pkt offset == 2 && syn then be16 (at pkt (offset + 2)) (at pkt (offset + 3)) else mss

-- `for offset := 20; offset < headerLen;`, on fuel. It returns result.Mss.
unfoldable pub read_tcp_options : ℕ → List ℕ → ℕ → Bool → ℕ → ℕ → Result TcpError ℕ
read_tcp_options zero pkt header_len syn offset mss = err out_of_fuel
read_tcp_options (suc fuel) pkt header_len syn offset mss =
    let skip = read_tcp_options fuel pkt header_len syn (offset + 1) mss in
    let next =
      read_tcp_options fuel pkt header_len syn (offset + at pkt (offset + 1))
        (next_mss pkt syn offset mss) in
    if not (ltb offset header_len)
    then ok mss
    else if at pkt offset == 0
    then ok mss
    else if at pkt offset == 1
    then skip
    else if bad_option_length pkt header_len offset
    then err tcp_option_length
    else if at pkt offset == 2 && bad_mss_option pkt offset
    then err tcp_mss_option
    else next

-- `sumData`: the pseudo header and the segment.
abbrev pub tcp_sum_data : Ipv4AddrPair → ℕ → List ℕ → List ℕ
tcp_sum_data addr len bytes =
    ip_bytes addr.src_addr (ip_bytes addr.dst_addr (0x00 ∷ 0x06 ∷ bytes16 len bytes))

-- The result that is filled in from the header, with the payload behind it.
abbrev pub tcp_fields : List ℕ → ℕ → ℕ → TcpPkt
tcp_fields pkt header_len mss = record {
  payload = drop header_len pkt;
  src_port = be16 (at pkt 0) (at pkt 1);
  dst_port = be16 (at pkt 2) (at pkt 3);
  seq_num = be32 (at pkt 4) (at pkt 5) (at pkt 6) (at pkt 7);
  ack_num = be32 (at pkt 8) (at pkt 9) (at pkt 10) (at pkt 11);
  flags = at pkt 13;
  window = be16 (at pkt 14) (at pkt 15);
  mss = mss;
}

-- What follows the options: the checksum and the payload.
unfoldable pub finish_tcp_pkt : Bool → List ℕ → Ipv4AddrPair → ℕ → ℕ → Parsed TcpError TcpPkt
finish_tcp_pkt check pkt addr header_len mss =
    if check && not (get_check_sum (tcp_sum_data addr (length pkt) pkt) == 0)
    then err (zero_tcp_pkt, tcp_check_sum)
    else ok (tcp_fields pkt header_len mss)

-- The options start at 20 and each is one byte long at least, so `headerLen` rounds are enough.
unfoldable pub parse_tcp_pkt : Bool → List ℕ → Ipv4AddrPair → Parsed TcpError TcpPkt
unfolding finish_tcp_pkt
parse_tcp_pkt check pkt addr =
    let header_len = at pkt 12 / 16 * 4 in
    if ltb (length pkt) 20 || ltb 1480 (length pkt)
    then err (zero_tcp_pkt, tcp_length)
    else if ltb header_len 20 || ltb (length pkt) header_len
    then err (zero_tcp_pkt, tcp_header_length)
    else elim (read_tcp_options header_len pkt header_len (has_syn (at pkt 13)) 20 0) [
      | ok mss ↦ finish_tcp_pkt check pkt addr header_len mss
      | err e ↦ err (zero_tcp_pkt, e)
    ]

-- `append(pkt, 2, 4, byte(packet.Mss>>8), byte(packet.Mss))`, unless the value is zero.
abbrev pub mss_option : ℕ → List ℕ → List ℕ
mss_option mss rest = if mss == 0 then rest else 2 ∷ 4 ∷ bytes16 mss rest

abbrev pub tcp_header_len : TcpPkt → ℕ
tcp_header_len packet = if packet.mss == 0 then 20 else 24

-- The segment with a zero checksum, behind what the buffer holds.
unfoldable pub tcp_unsealed : List ℕ → TcpPkt → List ℕ
tcp_unsealed pkt packet =
    pkt
    ++ bytes16 packet.src_port (
        bytes16 packet.dst_port (
          bytes32 packet.seq_num (
            bytes32 packet.ack_num (
              u8 (tcp_header_len packet / 4 * 16)
              ∷ packet.flags
              ∷ bytes16 packet.window
                  (0x00 ∷ 0x00 ∷ 0x00 ∷ 0x00 ∷ mss_option packet.mss packet.payload)))))

unfoldable pub build_tcp_pkt : Bool → List ℕ → TcpPkt → Ipv4AddrPair → Result TcpError (List ℕ)
unfolding tcp_unsealed
build_tcp_pkt check pkt packet addr =
    if not (length pkt == 0)
    then err tcp_buffer_not_empty
    else if not (packet.mss == 0) && not (has_syn packet.flags)
    then err tcp_mss_without_syn
    else if ltb (1480 - tcp_header_len packet) (length packet.payload)
    then err tcp_too_long
    else let bytes = tcp_unsealed pkt packet in
      let sum = get_check_sum (tcp_sum_data addr (length bytes) bytes) in
      ok (
        if check
        then set (set bytes 16 (u8 (shr sum 8))) 17 (u8 sum)
        else set (set bytes 16 0x00) 17 0x00)
