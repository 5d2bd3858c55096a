-- ===== src/Kcp/Enet/Laws.antt =====
-- protocol/kcp/enet.go: ParseEnet and BuildEnet on one another's results.
use mathlib.Core.Path.{subst}
use halo.Base.{
  ◌==◌, ◌&&◌, ℕ, List, [], ◌∷◌, some, ◌≡◌, ◌≢◌, arith, refl, length, be32_bytes, All, IsByte, IsU32,
}
use halo.Base.{ok}
use halo.Kcp.Enet.{
  ConnType, conn_enet_syn, conn_enet_est, conn_enet_fin, conn_enet_ping, other_conn, Enet,
  build_enet, parse_enet, enet_fields, enet_bytes, magic_head, magic_tail, bytes_equal, raw_conv_of,
}
use halo.Base.{◌+◌}
use halo.Base.{bytes32, true, u8}
use halo.Base.{be32, shr}
use halo.Kcp.Enet.{has_magic}
use halo.Base.{Bool-cases}
use halo.Base.{Bool, ap, sym}
use halo.Base.{◌∙◌}
use halo.Base.{inr}
use halo.Base.{inl}
use halo.Base.{==_iff}

abbrev pub encoded : ConnType → ℕ → ℕ → ℕ → List ℕ
encoded c t s v = enet_bytes (magic_head c) (magic_tail c) t s v

abbrev pub decoded : ConnType → ℕ → ℕ → ℕ → List ℕ → Enet
decoded c t s v bytes = record {
  conn_type = c;
  enet_type = t;
  session_id = s;
  conv = v;
  raw_conv = raw_conv_of bytes;
}

-- A message of one of the four types whose three numbers are 32-bit is built in 20 bytes, and
-- parsing them gives the type and the numbers back.
pub parse-build_enet :
    (t s v : ℕ) (c : ConnType)
    → IsU32 t
    → IsU32 s
    → IsU32 v
    → c ≢ other_conn
    → (bytes : List ℕ) × (build_enet c t s v ≡ some bytes)
      × (length bytes ≡ 20)
      × (parse_enet bytes ≡ ok (decoded c t s v bytes))
unfolding build_enet parse_enet has_magic enet_fields
parse-build_enet t s v conn_enet_syn tb sb vb h = (
  encoded conn_enet_syn t s v,
  refl,
  refl,
  ground (arith, be32_bytes t tb, be32_bytes s sb, be32_bytes v vb),
)
parse-build_enet t s v conn_enet_est tb sb vb h = (
  encoded conn_enet_est t s v,
  refl,
  refl,
  ground (arith, be32_bytes t tb, be32_bytes s sb, be32_bytes v vb),
)
parse-build_enet t s v conn_enet_fin tb sb vb h = (
  encoded conn_enet_fin t s v,
  refl,
  refl,
  ground (arith, be32_bytes t tb, be32_bytes s sb, be32_bytes v vb),
)
parse-build_enet t s v conn_enet_ping tb sb vb h = (
  encoded conn_enet_ping t s v,
  refl,
  refl,
  ground (arith, be32_bytes t tb, be32_bytes s sb, be32_bytes v vb),
)
parse-build_enet t s v other_conn tb sb vb h = absurd (h refl)

abbrev Four : List ℕ → ℕ → Type 0
Four xs n =
    (a : ℕ) × (b : ℕ) × (c : ℕ) × (d : ℕ) × (rest : List ℕ) × (xs ≡ a ∷ b ∷ c ∷ d ∷ rest)
    × (length rest ≡ n)

four : (xs : List ℕ) (n : ℕ) → length xs ≡ n + 4 → Four xs n
four [] n h = absurd (omega arith)
four (a ∷ []) n h = absurd (omega arith)
four (a ∷ b ∷ []) n h = absurd (omega arith)
four (a ∷ b ∷ c ∷ []) n h = absurd (omega arith)
four (a ∷ b ∷ c ∷ d ∷ rest) n h = (a, b, c, d, rest, refl, omega arith)

be32_back :
    (a b c d : ℕ)
    → IsByte a
    → IsByte b
    → IsByte c
    → IsByte d
    → (u8 (shr (be32 a b c d) 24) ≡ a)
      × (u8 (shr (be32 a b c d) 16) ≡ b)
      × (u8 (shr (be32 a b c d) 8) ≡ c)
      × (u8 (be32 a b c d) ≡ d)
be32_back a b c d ha hb hc hd = (omega arith, omega arith, omega arith, omega arith)

bytes32_back :
    (a b c d : ℕ) (rest : List ℕ)
    → IsByte a
    → IsByte b
    → IsByte c
    → IsByte d
    → bytes32 (be32 a b c d) rest ≡ a ∷ b ∷ c ∷ d ∷ rest
bytes32_back a b c d rest ha hb hc hd = ground (arith, be32_back a b c d ha hb hc hd)

bytes_equal_sound : (xs ys : List ℕ) → bytes_equal xs ys ≡ true → xs ≡ ys
bytes_equal_sound [] [] h = refl
bytes_equal_sound [] (y ∷ ys) h = absurd (cc)
bytes_equal_sound (x ∷ xs) [] h = absurd (cc)
bytes_equal_sound (x ∷ xs) (y ∷ ys) h = ground (arith, bytes_equal_sound xs ys)

accepted_magic :
    (xs : List ℕ) (e : Enet)
    → length xs ≡ 20
    → parse_enet xs ≡ ok e
    → (c : ConnType) × (c ≢ other_conn) × (has_magic c xs ≡ true) × (enet_fields c xs ≡ e)
unfolding parse_enet
accepted_magic xs e n h = elim (Bool-cases (has_magic conn_enet_syn xs)) [
  | inl m ↦ (conn_enet_syn, ground arith, m, ground arith)
  | inr m1 ↦ elim (Bool-cases (has_magic conn_enet_est xs)) [
    | inl m ↦ (conn_enet_est, ground arith, m, ground arith)
    | inr m2 ↦ elim (Bool-cases (has_magic conn_enet_fin xs)) [
      | inl m ↦ (conn_enet_fin, ground arith, m, ground arith)
      | inr m3 ↦ elim (Bool-cases (has_magic conn_enet_ping xs)) [
        | inl m ↦ (conn_enet_ping, ground arith, m, ground arith)
        | inr m4 ↦ absurd (ground arith)
      ]
    ]
  ]
]

accepted-length : (xs : List ℕ) (e : Enet) → parse_enet xs ≡ ok e → length xs ≡ 20
unfolding parse_enet
accepted-length xs e h = elim (Bool-cases (length xs == 20)) [
  | inl n ↦ (==_iff (length xs) 20).0 n
  | inr n ↦ absurd (ground arith)
]

length_zero : (xs : List ℕ) → length xs ≡ 0 → xs ≡ []
length_zero [] h = refl
length_zero (x ∷ xs) h = absurd (omega arith)

and_true : (x y : Bool) → (x && y) ≡ true → (x ≡ true) × (y ≡ true)
and_true x y h = ground arith

framed :
    (a0 a1 a2 a3 a4 a5 a6 a7 a8 a9 a10 a11 a12 a13 a14 a15 a16 a17 a18 a19 : ℕ)
    → All IsByte (
        a0 ∷ a1 ∷ a2 ∷ a3 ∷ a4 ∷ a5 ∷ a6 ∷ a7 ∷ a8 ∷ a9 ∷ a10 ∷ a11 ∷ a12 ∷ a13 ∷ a14 ∷ a15 ∷ a16
        ∷ a17 ∷ a18 ∷ a19 ∷ [])
    → (head tail : List ℕ) → a0 ∷ a1 ∷ a2 ∷ a3 ∷ [] ≡ head
    → a16 ∷ a17 ∷ a18 ∷ a19 ∷ [] ≡ tail
    → enet_bytes head tail (be32 a12 a13 a14 a15) (be32 a4 a5 a6 a7) (be32 a8 a9 a10 a11)
      ≡ a0 ∷ a1 ∷ a2 ∷ a3 ∷ a4 ∷ a5 ∷ a6 ∷ a7 ∷ a8 ∷ a9 ∷ a10 ∷ a11 ∷ a12 ∷ a13 ∷ a14 ∷ a15 ∷ a16
        ∷ a17 ∷ a18 ∷ a19 ∷ []
framed a0 a1 a2 a3 a4 a5 a6 a7 a8 a9 a10 a11 a12 a13 a14 a15 a16 a17 a18 a19
      (
        b0,
        (
          b1,
          (
            b2,
            (
              b3,
              (b4, (b5, (b6, (b7, (b8, (b9, (b10, (b11, (b12, (b13, (b14, (b15, (bs))))))))))))),
            ),
          ),
        ),
      )
      head tail h t =
    rw (sym h, sym t)
      (ap (λ xs. a0 ∷ a1 ∷ a2 ∷ a3 ∷ xs)
        (bytes32_back a4 a5 a6 a7 _ b4 b5 b6 b7
          ∙ ap (λ xs. a4 ∷ a5 ∷ a6 ∷ a7 ∷ xs)
              (bytes32_back a8 a9 a10 a11 _ b8 b9 b10 b11
                ∙ ap (λ xs. a8 ∷ a9 ∷ a10 ∷ a11 ∷ xs)
                    (bytes32_back a12 a13 a14 a15 _ b12 b13 b14 b15))))

rebuilt :
    (a0 a1 a2 a3 a4 a5 a6 a7 a8 a9 a10 a11 a12 a13 a14 a15 a16 a17 a18 a19 : ℕ) (c : ConnType)
    → c ≢ other_conn
    → All IsByte (
        a0 ∷ a1 ∷ a2 ∷ a3 ∷ a4 ∷ a5 ∷ a6 ∷ a7 ∷ a8 ∷ a9 ∷ a10 ∷ a11 ∷ a12 ∷ a13 ∷ a14 ∷ a15 ∷ a16
        ∷ a17 ∷ a18 ∷ a19 ∷ [])
    → has_magic c (
        a0 ∷ a1 ∷ a2 ∷ a3 ∷ a4 ∷ a5 ∷ a6 ∷ a7 ∷ a8 ∷ a9 ∷ a10 ∷ a11 ∷ a12 ∷ a13 ∷ a14 ∷ a15 ∷ a16
        ∷ a17 ∷ a18 ∷ a19 ∷ [])
      ≡ true
    → let e = enet_fields c (
        a0 ∷ a1 ∷ a2 ∷ a3 ∷ a4 ∷ a5 ∷ a6 ∷ a7 ∷ a8 ∷ a9 ∷ a10 ∷ a11 ∷ a12 ∷ a13 ∷ a14 ∷ a15 ∷ a16
        ∷ a17 ∷ a18 ∷ a19 ∷ []) in
      build_enet e.conn_type e.enet_type e.session_id e.conv
      ≡ some (
          a0 ∷ a1 ∷ a2 ∷ a3 ∷ a4 ∷ a5 ∷ a6 ∷ a7 ∷ a8 ∷ a9 ∷ a10 ∷ a11 ∷ a12 ∷ a13 ∷ a14 ∷ a15 ∷ a16
          ∷ a17 ∷ a18 ∷ a19 ∷ [])
unfolding build_enet has_magic enet_fields
rebuilt a0 a1 a2 a3 a4 a5 a6 a7 a8 a9 a10 a11 a12 a13 a14 a15 a16 a17 a18 a19 conn_enet_syn n b m =
    let parts =
      and_true (bytes_equal (a0 ∷ a1 ∷ a2 ∷ a3 ∷ []) (magic_head conn_enet_syn))
        (bytes_equal (a16 ∷ a17 ∷ a18 ∷ a19 ∷ []) (magic_tail conn_enet_syn)) m in
    ap some (
      framed a0 a1 a2 a3 a4 a5 a6 a7 a8 a9 a10 a11 a12 a13 a14 a15 a16 a17 a18 a19 b
        (magic_head conn_enet_syn) (magic_tail conn_enet_syn)
        (bytes_equal_sound (a0 ∷ a1 ∷ a2 ∷ a3 ∷ []) (magic_head conn_enet_syn) parts.0)
        (bytes_equal_sound (a16 ∷ a17 ∷ a18 ∷ a19 ∷ []) (magic_tail conn_enet_syn) parts.1))
rebuilt a0 a1 a2 a3 a4 a5 a6 a7 a8 a9 a10 a11 a12 a13 a14 a15 a16 a17 a18 a19 conn_enet_est n b m =
    let parts =
      and_true (bytes_equal (a0 ∷ a1 ∷ a2 ∷ a3 ∷ []) (magic_head conn_enet_est))
        (bytes_equal (a16 ∷ a17 ∷ a18 ∷ a19 ∷ []) (magic_tail conn_enet_est)) m in
    ap some (
      framed a0 a1 a2 a3 a4 a5 a6 a7 a8 a9 a10 a11 a12 a13 a14 a15 a16 a17 a18 a19 b
        (magic_head conn_enet_est) (magic_tail conn_enet_est)
        (bytes_equal_sound (a0 ∷ a1 ∷ a2 ∷ a3 ∷ []) (magic_head conn_enet_est) parts.0)
        (bytes_equal_sound (a16 ∷ a17 ∷ a18 ∷ a19 ∷ []) (magic_tail conn_enet_est) parts.1))
rebuilt a0 a1 a2 a3 a4 a5 a6 a7 a8 a9 a10 a11 a12 a13 a14 a15 a16 a17 a18 a19 conn_enet_fin n b m =
    let parts =
      and_true (bytes_equal (a0 ∷ a1 ∷ a2 ∷ a3 ∷ []) (magic_head conn_enet_fin))
        (bytes_equal (a16 ∷ a17 ∷ a18 ∷ a19 ∷ []) (magic_tail conn_enet_fin)) m in
    ap some (
      framed a0 a1 a2 a3 a4 a5 a6 a7 a8 a9 a10 a11 a12 a13 a14 a15 a16 a17 a18 a19 b
        (magic_head conn_enet_fin) (magic_tail conn_enet_fin)
        (bytes_equal_sound (a0 ∷ a1 ∷ a2 ∷ a3 ∷ []) (magic_head conn_enet_fin) parts.0)
        (bytes_equal_sound (a16 ∷ a17 ∷ a18 ∷ a19 ∷ []) (magic_tail conn_enet_fin) parts.1))
rebuilt a0 a1 a2 a3 a4 a5 a6 a7 a8 a9 a10 a11 a12 a13 a14 a15 a16 a17 a18 a19 conn_enet_ping n b m =
    let parts =
      and_true (bytes_equal (a0 ∷ a1 ∷ a2 ∷ a3 ∷ []) (magic_head conn_enet_ping))
        (bytes_equal (a16 ∷ a17 ∷ a18 ∷ a19 ∷ []) (magic_tail conn_enet_ping)) m in
    ap some (
      framed a0 a1 a2 a3 a4 a5 a6 a7 a8 a9 a10 a11 a12 a13 a14 a15 a16 a17 a18 a19 b
        (magic_head conn_enet_ping) (magic_tail conn_enet_ping)
        (bytes_equal_sound (a0 ∷ a1 ∷ a2 ∷ a3 ∷ []) (magic_head conn_enet_ping) parts.0)
        (bytes_equal_sound (a16 ∷ a17 ∷ a18 ∷ a19 ∷ []) (magic_tail conn_enet_ping) parts.1))
rebuilt a0 a1 a2 a3 a4 a5 a6 a7 a8 a9 a10 a11 a12 a13 a14 a15 a16 a17 a18 a19 other_conn n b m =
    absurd (n refl)

-- Every byte slice that the parser accepts is the message that the builder makes of what was read.
pub build-parse_enet :
    (data0 : List ℕ) (e : Enet)
    → All IsByte data0
    → parse_enet data0 ≡ ok e
    → build_enet e.conn_type e.enet_type e.session_id e.conv ≡ some data0
build-parse_enet data0 e b h =
    let size = accepted-length data0 e h in
    let (c, known, magic, fields) = accepted_magic data0 e size h in
    let (a0, a1, a2, a3, r0, e0, l0) = four data0 16 size in
    let (a4, a5, a6, a7, r1, e1, l1) = four r0 12 l0 in
    let (a8, a9, a10, a11, r2, e2, l2) = four r1 8 l1 in
    let (a12, a13, a14, a15, r3, e3, l3) = four r2 4 l2 in
    let (a16, a17, a18, a19, r4, e4, l4) = four r3 0 l3 in
    let whole : data0
        ≡ a0 ∷ a1 ∷ a2 ∷ a3 ∷ a4 ∷ a5 ∷ a6 ∷ a7 ∷ a8 ∷ a9 ∷ a10 ∷ a11 ∷ a12 ∷ a13 ∷ a14 ∷ a15 ∷ a16
          ∷ a17 ∷ a18 ∷ a19 ∷ [] =
      e0
      ∙ ap (λ xs. a0 ∷ a1 ∷ a2 ∷ a3 ∷ xs)
          (e1
            ∙ ap (λ xs. a4 ∷ a5 ∷ a6 ∷ a7 ∷ xs)
                (e2
                  ∙ ap (λ xs. a8 ∷ a9 ∷ a10 ∷ a11 ∷ xs)
                      (e3
                        ∙ ap (λ xs. a12 ∷ a13 ∷ a14 ∷ a15 ∷ xs)
                            (e4 ∙ ap (λ xs. a16 ∷ a17 ∷ a18 ∷ a19 ∷ xs) (length_zero r4 l4))))) in
    let Back : List ℕ → Type 0 = λ xs.
      All IsByte xs
      → has_magic c xs ≡ true
      → build_enet (enet_fields c xs).conn_type (enet_fields c xs).enet_type
          (enet_fields c xs).session_id (enet_fields c xs).conv
        ≡ some xs in
    subst (λ x. build_enet x.conn_type x.enet_type x.session_id x.conv ≡ some data0) fields
      (subst Back (sym whole)
        (rebuilt a0 a1 a2 a3 a4 a5 a6 a7 a8 a9 a10 a11 a12 a13 a14 a15 a16 a17 a18 a19 c known) b
        magic)
