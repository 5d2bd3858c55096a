-- ===== src/Kcp/Enet.antt =====
-- protocol/kcp/enet.go: the 20-byte connection control messages.
pub mod Laws
use halo.Base.{
  ℕ, Bool, List, [], ◌∷◌, Option, none, some, ◌==◌, ◌&&◌, not, if◌then◌else◌, length, at, slice,
  be32, bytes32,
}
use halo.Base.{ok, err, Result}
use halo.Base.{true, ◌+◌}
use halo.Base.{false, ◌*◌}
use halo.Base.{◌^◌}

-- The connType strings. `other_conn` stands for every string that is not one of the four.
pub data ConnType : Type 0 where
  conn_enet_syn conn_enet_est conn_enet_fin conn_enet_ping other_conn : ConnType

abbrev pub magic_head : ConnType → List ℕ
magic_head conn_enet_syn = 0x00 ∷ 0x00 ∷ 0x00 ∷ 0xff ∷ []
magic_head conn_enet_est = 0x00 ∷ 0x00 ∷ 0x01 ∷ 0x45 ∷ []
magic_head conn_enet_fin = 0x00 ∷ 0x00 ∷ 0x01 ∷ 0x94 ∷ []
magic_head conn_enet_ping = 0x00 ∷ 0x00 ∷ 0x02 ∷ 0x27 ∷ []
magic_head other_conn = []

abbrev pub magic_tail : ConnType → List ℕ
magic_tail conn_enet_syn = 0xff ∷ 0xff ∷ 0xff ∷ 0xff ∷ []
magic_tail conn_enet_est = 0x14 ∷ 0x51 ∷ 0x45 ∷ 0x45 ∷ []
magic_tail conn_enet_fin = 0x19 ∷ 0x41 ∷ 0x94 ∷ 0x94 ∷ []
magic_tail conn_enet_ping = 0x22 ∷ 0x72 ∷ 0x27 ∷ 0x27 ∷ []
magic_tail other_conn = []

-- The values that ParseEnet returns beside the error.
pub record Enet : Type 0 where
  pub conn_type : ConnType
  pub enet_type : ℕ
  pub session_id : ℕ
  pub conv : ℕ
  pub raw_conv : ℕ

pub data EnetError : Type 0 where
  invalid_length unknown_conn_type : EnetError

abbrev pub enet_bytes : List ℕ → List ℕ → ℕ → ℕ → ℕ → List ℕ
enet_bytes (a ∷ b ∷ c ∷ d ∷ []) tail enet_type session_id conv =
    a ∷ b ∷ c ∷ d ∷ bytes32 session_id (bytes32 conv (bytes32 enet_type tail))
enet_bytes head tail enet_type session_id conv = []

-- `none` is the nil slice of an unknown type.
unfoldable pub build_enet : ConnType → ℕ → ℕ → ℕ → Option (List ℕ)
build_enet other_conn enet_type session_id conv = none
build_enet conn_type enet_type session_id conv =
    some (enet_bytes (magic_head conn_type) (magic_tail conn_type) enet_type session_id conv)

-- `bytes.Equal`
abbrev pub bytes_equal : List ℕ → List ℕ → Bool
bytes_equal [] [] = true
bytes_equal [] (b ∷ bs) = false
bytes_equal (a ∷ rest) [] = false
bytes_equal (a ∷ rest) (b ∷ bs) = a == b && bytes_equal rest bs

-- `binary.LittleEndian.Uint64(data[4:12])`
abbrev pub raw_conv_of : List ℕ → ℕ
raw_conv_of msg =
    at msg 4
    + at msg 5 * 2 ^ 8
    + at msg 6 * 2 ^ 16
    + at msg 7 * 2 ^ 24
    + at msg 8 * 2 ^ 32
    + at msg 9 * 2 ^ 40
    + at msg 10 * 2 ^ 48
    + at msg 11 * 2 ^ 56

unfoldable pub has_magic : ConnType → List ℕ → Bool
has_magic conn_type msg =
    bytes_equal (slice 0 4 msg) (magic_head conn_type)
    && bytes_equal (slice 16 20 msg) (magic_tail conn_type)

unfoldable pub enet_fields : ConnType → List ℕ → Enet
enet_fields conn_type msg = record {
  conn_type = conn_type;
  enet_type = be32 (at msg 12) (at msg 13) (at msg 14) (at msg 15);
  session_id = be32 (at msg 4) (at msg 5) (at msg 6) (at msg 7);
  conv = be32 (at msg 8) (at msg 9) (at msg 10) (at msg 11);
  raw_conv = raw_conv_of msg;
}

unfoldable pub parse_enet : List ℕ → Result EnetError Enet
parse_enet msg =
    if not (length msg == 20)
    then err invalid_length
    else if has_magic conn_enet_syn msg
    then ok (enet_fields conn_enet_syn msg)
    else if has_magic conn_enet_est msg
    then ok (enet_fields conn_enet_est msg)
    else if has_magic conn_enet_fin msg
    then ok (enet_fields conn_enet_fin msg)
    else if has_magic conn_enet_ping msg
    then ok (enet_fields conn_enet_ping msg)
    else err unknown_conn_type
