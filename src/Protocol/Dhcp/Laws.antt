-- ===== src/Protocol/Dhcp/Laws.antt =====
-- protocol/dhcp.go: ParseDhcpOption on what BuildDhcpOption returns.
use halo.Base.{
  ℕ, zero, suc, ◌≡◌, ◌≢◌, ◌≤◌, ◌∙◌, ap, refl, arith, List, [], ◌∷◌, ◌++◌, Option, none, some,
  length, take-append, drop-append, length-append, true, if◌then◌else◌, bytes32, ◌==◌, ◌||◌,
  Bool-cases, inl, inr,
}
use halo.Protocol.Utils.{ip_bytes, mac_bytes}
use halo.Protocol.Dhcp.{
  DhcpOption, OptionMap, decode_option, keep_option, read_dhcp_options, encode_option,
  build_dhcp_option, parse_dhcp_option, empty, zero_option,
}
use halo.Base.{Bool, false}
use mathlib.Core.List.{append_assoc}

-- What a receiver stores for an option: the fields that the parser knows of.
abbrev pub received : DhcpOption → Option DhcpOption
received o =
    if o.code == 1
    then some (record (zero_option o.code) { subnet_mask = o.subnet_mask })
    else if o.code == 3 || (o.code == 6 || o.code == 54)
    then some (record (zero_option o.code) { ip_addr = o.server_ip_addr })
    else if o.code == 50
    then some (record (zero_option o.code) { ip_addr = o.ip_addr })
    else if o.code == 53
    then some (record (zero_option o.code) { msg_type = o.msg_type })
    else none

-- Where a code occurs twice, the later option is stored.
abbrev pub receive_all : List DhcpOption → OptionMap → OptionMap
receive_all [] m = m
receive_all (o ∷ os) m = receive_all os (keep_option o.code (received o) m)

-- One option of any known code is taken whole.
read_value :
    (fuel code n : ℕ) (value rest : List ℕ) (m : OptionMap)
    → code ≢ 0
    → code ≢ 0xff
    → length value ≡ n
    → read_dhcp_options (suc fuel) (code ∷ n ∷ (value ++ rest)) m
      ≡ read_dhcp_options fuel rest (keep_option code (decode_option code value) m)
unfolding read_dhcp_options
read_value fuel code n value rest m z e h =
    ground (arith, take-append n value rest h, drop-append n value rest h, length-append value rest)

abbrev value_of : DhcpOption → List ℕ
value_of o =
    if o.code == 1
    then ip_bytes o.subnet_mask []
    else if o.code == 3 || (o.code == 6 || o.code == 54)
    then ip_bytes o.server_ip_addr []
    else if o.code == 50
    then ip_bytes o.ip_addr []
    else if o.code == 51 || (o.code == 58 || o.code == 59)
    then bytes32 o.time_value []
    else if o.code == 53
    then o.msg_type ∷ []
    else if o.code == 55
    then 0x01 ∷ 0x03 ∷ 0x06 ∷ []
    else 0x01 ∷ mac_bytes o.mac_addr []

abbrev supported : ℕ → Bool
supported c =
    c == 1
    || (c == 3
        || (c == 6
            || (c == 54
                || (c == 50
                    || (c == 51 || (c == 58 || (c == 59 || (c == 53 || (c == 55 || c == 61)))))))))

encode-value_of :
    (o : DhcpOption) (rest : List ℕ)
    → supported o.code ≡ true
    → encode_option o rest ≡ o.code ∷ length (value_of o) ∷ (value_of o ++ rest)
unfolding encode_option
encode-value_of o rest h = ground arith

encode_unsupported :
    (o : DhcpOption) (rest : List ℕ)
    → supported o.code ≡ false
    → (encode_option o rest ≡ rest) × (received o ≡ none)
unfolding encode_option
encode_unsupported o rest h = ground arith

decode-value_of :
    (o : DhcpOption) → supported o.code ≡ true → decode_option o.code (value_of o) ≡ received o
unfolding decode_option
decode-value_of o h = ground arith

encoded :
    (o : DhcpOption) (tail rest : List ℕ)
    → supported o.code ≡ true
    → encode_option o tail ++ rest ≡ o.code ∷ length (value_of o) ∷ (value_of o ++ (tail ++ rest))
encoded o tail rest e =
    ap (λ l. l ++ rest) (encode-value_of o tail e)
    ∙ ap (λ l. o.code ∷ length (value_of o) ∷ l) (append_assoc (value_of o) tail rest)

supported_plain : (c : ℕ) → supported c ≡ true → (c ≢ 0) × (c ≢ 0xff)
supported_plain c h = ground arith

read_end :
    (fuel : ℕ) (rest : List ℕ) (m : OptionMap)
    → read_dhcp_options (suc fuel) (0xff ∷ rest) m ≡ some m
unfolding read_dhcp_options
read_end fuel [] m = refl
read_end fuel (x ∷ rest) m = refl

-- One supported option in front of others.
read_one :
    (o : DhcpOption) (tail rest : List ℕ) (fuel : ℕ) (m r : OptionMap)
    → supported o.code ≡ true
    → length (encode_option o tail ++ rest) ≤ fuel
    → ((less : ℕ)
        → length (tail ++ rest) ≤ less
        → read_dhcp_options less (tail ++ rest) (keep_option o.code (received o) m) ≡ some r)
    → read_dhcp_options fuel (encode_option o tail ++ rest) m ≡ some r
read_one o tail rest zero m r e h next = absurd (omega (arith, ap length (encoded o tail rest e)))
read_one o tail rest (suc fuel) m r e h next =
    let (z, f) = supported_plain o.code e in
    let n : length (tail ++ rest) ≤ fuel =
      omega (arith, ap length (encoded o tail rest e), length-append (value_of o) (tail ++ rest)) in
    ap (λ l. read_dhcp_options (suc fuel) l m) (encoded o tail rest e)
    ∙ read_value fuel o.code (length (value_of o)) (value_of o) (tail ++ rest) m z f refl
    ∙ ap (λ d. read_dhcp_options fuel (tail ++ rest) (keep_option o.code d m)) (decode-value_of o e)
    ∙ next fuel n

read_all :
    (os : List DhcpOption) (fuel : ℕ) (rest : List ℕ) (m : OptionMap)
    → length (build_dhcp_option os ++ rest) ≤ fuel
    → read_dhcp_options fuel (build_dhcp_option os ++ rest) m ≡ some (receive_all os m)
unfolding build_dhcp_option
read_all [] zero rest m h = absurd (omega arith)
read_all [] (suc fuel) rest m h = read_end fuel rest m
read_all (o ∷ os) fuel rest m h = elim (Bool-cases (supported o.code)) [
  | inl e ↦
      read_one o (build_dhcp_option os) rest fuel m
        (receive_all os (keep_option o.code (received o) m)) e h
        (λ less k. read_all os less rest (keep_option o.code (received o) m) k)
  | inr e ↦
      let (skipped, unknown) = encode_unsupported o (build_dhcp_option os) e in
      rw (skipped, unknown) (read_all os fuel rest m (rw skipped at h))
]

-- Whatever order the builder visits its options in, and whatever follows the end mark, the parser
-- stores for each option the fields that it knows of, a later option over an earlier one of the
-- same code, and nothing else.
pub parse-build_dhcp_option :
    (os : List DhcpOption) (rest : List ℕ)
    → parse_dhcp_option (build_dhcp_option os ++ rest) ≡ some (receive_all os empty)
unfolding parse_dhcp_option
parse-build_dhcp_option os rest =
    read_all os (length (build_dhcp_option os ++ rest)) rest empty (omega arith)
