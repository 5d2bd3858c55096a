-- ===== src/Protocol/Rewrite/Seals.antt =====
-- protocol/ipv4.go: the recomputed checksums and the time to live.
use halo.Base.{u16, suc}
use halo.Base.{ℕ, Bool, ◌+◌, ◌-◌, List, ◌≡◌, ◌≤◌, ◌<◌, refl, ap, ◌∙◌, arith, length, true, false}
use halo.Base.{
  All, All-set, All-take, All-drop, IsByte, set, take, drop, length-set, length-take, length-drop,
}
use halo.Base.{
  take-set, drop-set, get_or-set_self, get_or-set_ne, ltb-false, u8, shr, leb, Bool-cases, inl, inr,
  if◌then◌else◌,
}
use halo.Protocol.Utils.{get_check_sum}
use halo.Protocol.Utils.Sums.{seal, set_word, word_sum-le, dbl}
use halo.Protocol.Ipv4.{Ipv4Pkt}
use halo.Protocol.Ipv4.Laws.{ipv4_bytes, header_sum}
use halo.Protocol.Rewrite.Rebuild.{re_calc_ipv4-header}
use halo.Protocol.Rewrite.{re_calc_ipv4_check_sum, re_calc_icmp_check_sum, handle_ipv4_pkt_ttl}

abbrev zero_word : List ℕ → ℕ → List ℕ
zero_word l i = set (set l i 0x00) (suc i) 0x00

module _ (l : List ℕ) (k : ℕ) (b : All IsByte l) (n : length l ≤ 65536) where
  zero_word-IsByte : All IsByte (zero_word l (dbl k))
  zero_word-IsByte =
      All-set IsByte (set l (dbl k) 0) (suc (dbl k)) 0 (All-set IsByte l (dbl k) 0 b (omega arith))
        (omega arith)

  length-zero_word : length (zero_word l (dbl k)) ≡ length l
  length-zero_word = length-set (set l (dbl k) 0) (suc (dbl k)) 0 ∙ length-set l (dbl k) 0

  pub seal_zeroed :
      suc (dbl k) < length l
      → get_check_sum (set_word (zero_word l (dbl k)) (dbl k) (get_check_sum (zero_word l (dbl k))))
        ≡ 0
  seal_zeroed lt =
      seal (zero_word l (dbl k)) k
        (omega (arith, word_sum-le (zero_word l (dbl k)) zero_word-IsByte, length-zero_word))
        (omega (arith, length-zero_word))
        (get_or-set_ne (set l (dbl k) 0) (suc (dbl k)) (dbl k) 0 0 (omega arith)
          ∙ get_or-set_self l (dbl k) 0 0 (omega arith))
        (get_or-set_self (set l (dbl k) 0) (suc (dbl k)) 0 0
          (omega (arith, length-set l (dbl k) 0)))

take-set_word : (n : ℕ) (l : List ℕ) (i x : ℕ) → take n (set_word l i x) ≡ set_word (take n l) i x
take-set_word n l i x =
    take-set n (set l i (u8 (shr x 8))) (suc i) (u8 x)
    ∙ ap (λ t. set t (suc i) (u8 x)) (take-set n l i (u8 (shr x 8)))

take-zero_word : (n : ℕ) (l : List ℕ) (i : ℕ) → take n (zero_word l i) ≡ zero_word (take n l) i
take-zero_word n l i =
    take-set n (set l i 0) (suc i) 0 ∙ ap (λ t. set t (suc i) 0) (take-set n l i 0)

-- With checksums enabled, the recomputed header of a packet of at least 20 bytes verifies.
pub re_calc_ipv4_verifies :
    (pkt : List ℕ)
    → All IsByte pkt
    → 20 ≤ length pkt
    → get_check_sum (take 20 (re_calc_ipv4_check_sum true pkt)) ≡ 0
unfolding re_calc_ipv4_check_sum
re_calc_ipv4_verifies pkt b n =
    let c : ℕ = get_check_sum (take 20 (zero_word pkt 10)) in
    let short : length (take 20 pkt) ≡ 20 = omega (arith, length-take 20 pkt) in
    rw (ltb-false (length pkt) 20 n) (
      ap get_check_sum (
        take-set_word 20 (zero_word pkt 10) 10 c
        ∙ ap (λ t. set_word t 10 (get_check_sum t)) (take-zero_word 20 pkt 10))
      ∙ seal_zeroed (take 20 pkt) 5 (All-take IsByte 20 pkt b) (omega arith) (omega arith))

drop-set_word :
    (n : ℕ) (l : List ℕ) (i j x : ℕ) → j ≡ n + i → drop n (set_word l j x) ≡ set_word (drop n l) i x
drop-set_word n l i j x e =
    drop-set n (set l j (u8 (shr x 8))) (suc i) (suc j) (u8 x) (omega arith)
    ∙ ap (λ t. set t (suc i) (u8 x)) (drop-set n l i j (u8 (shr x 8)) e)

drop-zero_word :
    (n : ℕ) (l : List ℕ) (i j : ℕ) → j ≡ n + i → drop n (zero_word l j) ≡ zero_word (drop n l) i
drop-zero_word n l i j e =
    drop-set n (set l j 0) (suc i) (suc j) 0 (omega arith)
    ∙ ap (λ t. set t (suc i) 0) (drop-set n l i j 0 e)

-- On a packet of 24 to 65536 bytes the recomputed ICMP message, all that follows the header,
-- verifies.
pub re_calc_icmp_verifies :
    (pkt : List ℕ)
    → All IsByte pkt
    → 24 ≤ length pkt
    → length pkt ≤ 65536
    → get_check_sum (drop 20 (re_calc_icmp_check_sum pkt)) ≡ 0
unfolding re_calc_icmp_check_sum
re_calc_icmp_verifies pkt b n m =
    let c : ℕ = get_check_sum (drop 20 (zero_word pkt 22)) in
    rw (ltb-false (length pkt) 24 n) (
      ap get_check_sum (
        drop-set_word 20 (zero_word pkt 22) 2 22 c (omega arith)
        ∙ ap (λ t. set_word t 2 (get_check_sum t)) (drop-zero_word 20 pkt 2 22 (omega arith)))
      ∙ seal_zeroed (drop 20 pkt) 1 (All-drop IsByte 20 pkt b) (omega (arith, length-drop 20 pkt))
          (omega (arith, length-drop 20 pkt)))

-- A packet in transit loses one hop and has the header checksum of its new time to live; one
-- with at most one hop left is not alive and is returned as it was.
pub handle_ttl_bytes :
    (check : Bool) (id ttl : ℕ) (p : Ipv4Pkt) (rest : List ℕ)
    → handle_ipv4_pkt_ttl check (ipv4_bytes check id ttl p rest) ≡ (
        if leb ttl 1
        then (ipv4_bytes check id ttl p rest, false)
        else (ipv4_bytes check id (ttl - 1) p rest, true))
unfolding handle_ipv4_pkt_ttl
handle_ttl_bytes check id ttl p rest =
    let len : ℕ = u16 (length p.payload + 20) in
    let sum : ℕ = header_sum check len id ttl p in
    rw (ltb-false (length (ipv4_bytes check id ttl p rest)) 9 (omega arith))
      (elim (Bool-cases (leb ttl 1)) [
        | inl e ↦ rw e refl
        | inr e ↦ rw e (
            ap (λ l. (l, true))
              (re_calc_ipv4-header check len id (ttl - 1) (u8 (shr sum 8)) (u8 sum) p rest))
      ])
