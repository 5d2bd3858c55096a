-- ===== src/Protocol/Utils/Fold.antt =====
-- protocol/utils.go: the carry loop of GetCheckSum as arithmetic modulo 65535.
use halo.Base.{ℕ, ◌+◌, ◌-◌, ◌%◌, ◌^◌, ◌<◌, ◌≡◌, arith}
use halo.Protocol.Utils.{fold_carry}

-- The loop ends by its test: with fuel 3 no carry is left.
pub fold_carry_done : (s : ℕ) → s < 2 ^ 32 → fold_carry 3 s < 65536
unfolding fold_carry
fold_carry_done s h = ground arith

pub fold_carry_zero : fold_carry 3 0 ≡ 0
unfolding fold_carry
fold_carry_zero = ground arith

pub fold_carry_mod : (s : ℕ) → s < 2 ^ 32 → 0 < s → fold_carry 3 s ≡ 1 + (s - 1) % 65535
unfolding fold_carry
fold_carry_mod s h p = ground arith
