-- ===== src/Protocol/Utils/Address.antt =====
-- protocol/utils.go: IpAddrToU and UToIpAddr.
use halo.Base.{ℕ, ◌≡◌, ◌<◌, ◌^◌, arith, IsU32, IsByte}
use halo.Protocol.Utils.{Ipv4Addr, ip_addr_to_u, u_to_ip_addr}

-- The conversions between addresses and integers are inverse to one another: on addresses of four bytes, and on 32-bit integers.
pub ip_addr_to_u_inverse :
    (a : Ipv4Addr) (x : ℕ)
    → IsByte a.a0
    → IsByte a.a1
    → IsByte a.a2
    → IsByte a.a3
    → IsU32 x
    → (ip_addr_to_u a < 2 ^ 32)
      × (u_to_ip_addr (ip_addr_to_u a) ≡ a)
      × (ip_addr_to_u (u_to_ip_addr x) ≡ x)
unfolding ip_addr_to_u u_to_ip_addr
ip_addr_to_u_inverse a x h0 h1 h2 h3 h = (omega arith, ground arith, omega arith)
