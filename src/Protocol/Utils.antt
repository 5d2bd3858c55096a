-- ===== src/Protocol/Utils.antt =====
-- protocol/utils.go: addresses and the internet checksum. Byte slices are lists of numbers.
pub mod Fold
pub mod Sums
pub mod Address
use halo.Base.{ℕ, zero, suc, ◌+◌, ◌-◌, ◌*◌, ◌/◌, ◌%◌, ◌^◌, List, [], ◌∷◌, ◌==◌, if◌then◌else◌}
use halo.Base.{u8, u16, u32, shr, at}

-- `type MacAddr [6]byte`
pub record MacAddr : Type 0 where
  pub m0 : ℕ
  pub m1 : ℕ
  pub m2 : ℕ
  pub m3 : ℕ
  pub m4 : ℕ
  pub m5 : ℕ

-- `type Ipv4Addr [4]byte`
pub record Ipv4Addr : Type 0 where
  pub a0 : ℕ
  pub a1 : ℕ
  pub a2 : ℕ
  pub a3 : ℕ

-- `MacAddr(pkt[i:i+6])` and `Ipv4Addr(pkt[i:i+4])`
abbrev pub mac_at : List ℕ → ℕ → MacAddr
mac_at pkt i = record {
  m0 = at pkt i;
  m1 = at pkt (i + 1);
  m2 = at pkt (i + 2);
  m3 = at pkt (i + 3);
  m4 = at pkt (i + 4);
  m5 = at pkt (i + 5);
}

abbrev pub ip_at : List ℕ → ℕ → Ipv4Addr
ip_at pkt i = record {
  a0 = at pkt i;
  a1 = at pkt (i + 1);
  a2 = at pkt (i + 2);
  a3 = at pkt (i + 3);
}

-- `append(pkt, addr[:]...)`, in front of what is appended later
abbrev pub mac_bytes : MacAddr → List ℕ → List ℕ
mac_bytes m rest = m.m0 ∷ m.m1 ∷ m.m2 ∷ m.m3 ∷ m.m4 ∷ m.m5 ∷ rest

abbrev pub ip_bytes : Ipv4Addr → List ℕ → List ℕ
ip_bytes a rest = a.a0 ∷ a.a1 ∷ a.a2 ∷ a.a3 ∷ rest

abbrev pub zero_mac : MacAddr
zero_mac = record { m0 = 0; m1 = 0; m2 = 0; m3 = 0; m4 = 0; m5 = 0 }

abbrev pub zero_ip : Ipv4Addr
zero_ip = record { a0 = 0; a1 = 0; a2 = 0; a3 = 0 }

-- The loop over the whole 16-bit words, and the odd last byte. `sum` is a uint32.
unfoldable pub add_words : List ℕ → ℕ → ℕ
add_words [] sum = sum
add_words (a ∷ []) sum = u32 (sum + a * 256)
add_words (a ∷ b ∷ rest) sum = add_words rest (u32 (sum + (a * 256 + b)))

-- `for sum>>16 != 0 { sum = (sum & 0xffff) + (sum >> 16) }`, on fuel.
unfoldable pub fold_carry : ℕ → ℕ → ℕ
fold_carry zero sum = sum
fold_carry (suc fuel) sum =
    let rest = fold_carry fuel (u32 (sum % 65536 + shr sum 16)) in
    if shr sum 16 == 0 then sum else rest

-- Two rounds leave no carry; the third unit of fuel makes the last test.
unfoldable pub get_check_sum : List ℕ → ℕ
unfolding add_words fold_carry
get_check_sum bytes = let sum = fold_carry 3 (add_words bytes 0) in u16 (2 ^ 32 - 1 - sum)

-- The four shifted bytes do not overlap, so `|=` adds them.
unfoldable pub ip_addr_to_u : Ipv4Addr → ℕ
ip_addr_to_u a = a.a0 * 2 ^ 24 + a.a1 * 2 ^ 16 + a.a2 * 2 ^ 8 + a.a3

unfoldable pub u_to_ip_addr : ℕ → Ipv4Addr
u_to_ip_addr x = record { a0 = u8 (shr x 24); a1 = u8 (shr x 16); a2 = u8 (shr x 8); a3 = u8 x }
