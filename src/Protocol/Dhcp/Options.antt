-- ===== src/Protocol/Dhcp/Options.antt =====
-- protocol/dhcp.go: the option loop of ParseDhcpOption and its fuel.
use halo.Base.{ℕ, zero, suc, ◌≢◌, ◌≤◌, arith, List, [], ◌∷◌, none, length, take, drop, length-drop}
use halo.Protocol.Dhcp.{
  OptionMap, decode_option, keep_option, read_dhcp_options, parse_dhcp_option, empty,
}

read_dhcp_options-ne-none :
    (fuel : ℕ) (l : List ℕ) (m : OptionMap) → length l ≤ fuel → read_dhcp_options fuel l m ≢ none
unfolding read_dhcp_options
read_dhcp_options-ne-none fuel [] m h = λ e. cc
read_dhcp_options-ne-none zero (c ∷ l) m h = absurd (omega arith)
read_dhcp_options-ne-none (suc fuel) (c ∷ []) m h =
    ground (arith, read_dhcp_options-ne-none fuel [] m)
read_dhcp_options-ne-none (suc fuel) (c ∷ n ∷ l) m h = ground (
  arith,
  read_dhcp_options-ne-none fuel (n ∷ l) m,
  length-drop n l,
  read_dhcp_options-ne-none fuel (drop n l) (keep_option c (decode_option c (take n l)) m),
)

-- The loop over the options ends on every input.
pub parse_dhcp_option-ne-none : (l : List ℕ) → parse_dhcp_option l ≢ none
unfolding parse_dhcp_option
parse_dhcp_option-ne-none l = read_dhcp_options-ne-none (length l) l empty (omega arith)
