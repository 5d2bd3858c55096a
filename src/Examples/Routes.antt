-- ===== src/Examples/Routes.antt =====
-- An update of the route table.
use halo.Base.{
  ℕ, Bool, zero, suc, true, ◌*◌, ◌^◌, ◌<◌, ◌≡◌, ◌≢◌, ◌⊎◌, List, ◌++◌, some, none, u32, ◌==◌, ◌&&◌,
  not, Bool-cases, inl, inr, refl, ap, sym, ◌∙◌, arith, ==_iff,
}
use halo.Protocol.Utils.{ip_addr_to_u}
use halo.Engine.Route.{RouteEntry, update_route}
use halo.Engine.Route.Places.{path, routes_at}
use halo.Engine.Route.Updated.{Drops, stored, listed, update_route-Drops}
use halo.Examples.Data.{table, host_route, wan_host}

abbrev none_below : ℕ → ℕ → Bool
none_below u zero = true
none_below u (suc n) = none_below u n && not (u32 (u * 2 ^ n) == 0)

none_below_lem : (u n k : ℕ) → none_below u n ≡ true → k < n → u32 (u * 2 ^ k) ≢ 0
none_below_lem u zero k h l = absurd (omega arith)
none_below_lem u (suc n) k h l = elim (Bool-cases (k == n)) [
  | inl y ↦ λ e. absurd (ground (arith, h, ap (λ z. u32 (u * 2 ^ z)) (sym ((==_iff k n).0 y)) ∙ e))
  | inr d ↦ none_below_lem u n k (ground (arith, h)) (ground (arith, d))
]

update_route-Drops_example :
    ((kept : List RouteEntry) × Drops host_route (stored (path wan_host 0 32) table) kept
      × (routes_at (path wan_host 0 32) (update_route table host_route none)
          ≡ some (kept ++ listed none)))
    × ((q : List Bool)
        → (q ≡ path wan_host 0 32)
          ⊎ (routes_at q (update_route table host_route none) ≡ routes_at q table))
unfolding ip_addr_to_u
update_route-Drops_example =
    update_route-Drops table host_route none 32 (omega arith, omega arith, omega arith, omega arith)
      refl (λ k. none_below_lem 0xffffffff 32 k refl)
