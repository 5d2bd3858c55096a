-- ===== src/Protocol/Dhcp.antt =====
-- protocol/dhcp.go: DHCP options and messages. A Go map from option codes is a function.
pub mod Options
pub mod Laws
pub mod Message
use halo.Base.{
  ℕ, Bool, zero, suc, true, false, ◌+◌, ◌*◌, ◌/◌, ◌%◌, ◌^◌, ◌++◌, List, [], ◌∷◌, Option, none, some,
  ltb, ◌==◌, ◌||◌, ◌&&◌, not, if◌then◌else◌, length, at, take, drop, slice, replicate, bytes32, u8,
  shr,
}
use halo.Base.{ok, err, Result, Parsed}
use halo.Protocol.Utils.{MacAddr, Ipv4Addr, mac_at, ip_at, mac_bytes, ip_bytes, zero_mac, zero_ip}

pub record DhcpOption : Type 0 where
  pub code : ℕ
  pub msg_type : ℕ
  pub ip_addr : Ipv4Addr
  pub subnet_mask : Ipv4Addr
  pub server_ip_addr : Ipv4Addr
  pub time_value : ℕ
  pub host_name : List ℕ
  pub mac_addr : MacAddr

-- `&DhcpOption{Type: code}`
abbrev pub zero_option : ℕ → DhcpOption
zero_option code = record {
  code = code;
  msg_type = 0;
  ip_addr = zero_ip;
  subnet_mask = zero_ip;
  server_ip_addr = zero_ip;
  time_value = 0;
  host_name = [];
  mac_addr = zero_mac;
}

-- `map[uint8]*DhcpOption`
abbrev pub OptionMap : Type 0
OptionMap = ℕ → Option DhcpOption

abbrev pub empty : OptionMap
empty code = none

-- `dhcpOptionMap[code] = option`
abbrev pub assign : ℕ → DhcpOption → OptionMap → OptionMap
assign code option m j = if j == code then some option else m j

-- `len(data) < 4 || len(data)%4 != 0`
abbrev pub bad_address_list : List ℕ → Bool
bad_address_list value = ltb (length value) 4 || not (length value % 4 == 0)

-- The switch on the code: what an option with this value is stored as.
unfoldable pub decode_option : ℕ → List ℕ → Option DhcpOption
decode_option code value =
    if code == 1
    then if length value == 4
      then some (record (zero_option code) { subnet_mask = ip_at value 0 })
      else none
    else if code == 3 || code == 6
    then if bad_address_list value
      then none
      else some (record (zero_option code) { ip_addr = ip_at value 0 })
    else if code == 12
    then some (record (zero_option code) { host_name = value })
    else if code == 50 || code == 54
    then if length value == 4
      then some (record (zero_option code) { ip_addr = ip_at value 0 })
      else none
    else if code == 53
    then if length value == 1
      then some (record (zero_option code) { msg_type = at value 0 })
      else none
    else none

abbrev pub keep_option : ℕ → Option DhcpOption → OptionMap → OptionMap
keep_option code none m = m
keep_option code (some option) m = assign code option m

-- The loop, over what lies from index `i` on; `none` means that the fuel ran out.
unfoldable pub read_dhcp_options : ℕ → List ℕ → OptionMap → Option OptionMap
read_dhcp_options fuel [] m = some m
read_dhcp_options zero (code ∷ rest) m = none
read_dhcp_options (suc fuel) (code ∷ []) m =
    let skip = read_dhcp_options fuel [] m in
    if code == 0xff then some m else if code == 0 then skip else some m
read_dhcp_options (suc fuel) (code ∷ len ∷ rest) m =
    let skip = read_dhcp_options fuel (len ∷ rest) m in
    let next =
      read_dhcp_options fuel (drop len rest)
        (keep_option code (decode_option code (take len rest)) m) in
    if code == 0xff
    then some m
    else if code == 0
    then skip
    else if ltb (length rest) len
    then some m
    else next

-- Each round takes a byte at least.
unfoldable pub parse_dhcp_option : List ℕ → Option OptionMap
unfolding read_dhcp_options decode_option
parse_dhcp_option option_data = read_dhcp_options (length option_data) option_data empty

-- One round of the loop over the map, in front of what is appended later.
unfoldable pub encode_option : DhcpOption → List ℕ → List ℕ
encode_option o rest =
    if o.code == 1
    then o.code ∷ 0x04 ∷ ip_bytes o.subnet_mask rest
    else if o.code == 3 || (o.code == 6 || o.code == 54)
    then o.code ∷ 0x04 ∷ ip_bytes o.server_ip_addr rest
    else if o.code == 50
    then o.code ∷ 0x04 ∷ ip_bytes o.ip_addr rest
    else if o.code == 51 || (o.code == 58 || o.code == 59)
    then o.code ∷ 0x04 ∷ bytes32 o.time_value rest
    else if o.code == 53
    then o.code ∷ 0x01 ∷ o.msg_type ∷ rest
    else if o.code == 55
    then o.code ∷ 0x03 ∷ 0x01 ∷ 0x03 ∷ 0x06 ∷ rest
    else if o.code == 61
    then o.code ∷ 0x07 ∷ 0x01 ∷ mac_bytes o.mac_addr rest
    else rest

-- Go ranges over a map in no fixed order: the list holds the options in the order of one range.
unfoldable pub build_dhcp_option : List DhcpOption → List ℕ
unfolding encode_option
build_dhcp_option [] = 0xff ∷ []
build_dhcp_option (o ∷ os) = encode_option o (build_dhcp_option os)

pub data DhcpError : Type 0 where
  dhcp_too_short dhcp_magic_cookie_error dhcp_transaction_id : DhcpError

pub record DhcpPkt : Type 0 where
  pub boot_msg_type : ℕ
  pub transaction_id : List ℕ
  pub client_ip_addr : Ipv4Addr
  pub your_ip_addr : Ipv4Addr
  pub client_mac_addr : MacAddr

-- `bytes.Equal(pkt[236:240], DhcpMagicCookie)`
abbrev pub has_magic_cookie : List ℕ → Bool
has_magic_cookie pkt =
    at pkt 236 == 0x63 && (at pkt 237 == 0x82 && (at pkt 238 == 0x53 && at pkt 239 == 0x63))

-- The fixed fields and, as the second part, what ParseDhcpOption makes of the bytes behind them.
unfoldable pub parse_dhcp_pkt : List ℕ → Result DhcpError (DhcpPkt × Option OptionMap)
unfolding parse_dhcp_option
parse_dhcp_pkt pkt =
    if ltb (length pkt) 240
    then err dhcp_too_short
    else if not (has_magic_cookie pkt)
    then err dhcp_magic_cookie_error
    else ok (
      record {
        boot_msg_type = at pkt 0;
        transaction_id = slice 4 8 pkt;
        client_ip_addr = ip_at pkt 12;
        your_ip_addr = ip_at pkt 16;
        client_mac_addr = mac_at pkt 28;
      },
      parse_dhcp_option (drop 240 pkt),
    )

-- The options are the list that one range over the map visits.
unfoldable pub build_dhcp_pkt : List ℕ → DhcpPkt → List DhcpOption → Result DhcpError (List ℕ)
unfolding build_dhcp_option
build_dhcp_pkt pkt packet options =
    if not (length packet.transaction_id == 4)
    then err dhcp_transaction_id
    else ok (
        pkt
        ++ (packet.boot_msg_type
            ∷ 0x01
            ∷ 0x06
            ∷ 0x00
            ∷ (packet.transaction_id
                ++ (0x00
                    ∷ 0x00
                    ∷ 0x80
                    ∷ 0x00
                    ∷ ip_bytes packet.client_ip_addr (
                        ip_bytes packet.your_ip_addr (
                          0x00
                          ∷ 0x00
                          ∷ 0x00
                          ∷ 0x00
                          ∷ 0x00
                          ∷ 0x00
                          ∷ 0x00
                          ∷ 0x00
                          ∷ mac_bytes packet.client_mac_addr (
                              replicate 10 0x00
                              ++ (replicate 64 0x00
                                  ++ (replicate 128 0x00
                                      ++ (0x63
                                          ∷ 0x82
                                          ∷ 0x53
                                          ∷ 0x63
                                          ∷ build_dhcp_option options))))))))))
