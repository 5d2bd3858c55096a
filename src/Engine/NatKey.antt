-- ===== src/Engine/NatKey.antt =====
-- engine/ipv4_engine.go: the records of the NAT tables, and equality of their keys.
use halo.Base.{ℕ, Bool, true, ◌≡◌, ◌↔◌, ◌&&◌, ◌==◌, arith, Eq}

abbrev pub nat_type_symmetric : ℕ
nat_type_symmetric = 0

abbrev pub nat_type_full_cone : ℕ
nat_type_full_cone = 1

pub record NatFlowHash : Type 0 where
  pub remote_ip_addr : ℕ
  pub remote_port : ℕ
  pub lan_host_ip_addr : ℕ
  pub lan_host_port : ℕ
  pub ipv4_head_proto : ℕ

pub record NatWanFlowHash : Type 0 where
  pub remote_ip_addr : ℕ
  pub remote_port : ℕ
  pub wan_ip_addr : ℕ
  pub wan_port : ℕ
  pub ipv4_head_proto : ℕ

pub record NatFlow : Type 0 where
  pub nat_flow_hash : NatFlowHash
  pub remote_ip_addr : ℕ
  pub remote_port : ℕ
  pub wan_ip_addr : ℕ
  pub wan_port : ℕ
  pub lan_host_ip_addr : ℕ
  pub lan_host_port : ℕ
  pub ipv4_head_proto : ℕ
  pub last_alive_time : ℕ

pub record NatPortMappingEntry : Type 0 where
  pub wan_port : ℕ
  pub lan_host_ip_addr : ℕ
  pub lan_host_port : ℕ
  pub ipv4_head_proto : ℕ

-- `==` on the key types
abbrev pub flow_key_eq : NatFlowHash → NatFlowHash → Bool
flow_key_eq a b =
    a.remote_ip_addr == b.remote_ip_addr
    && (a.remote_port == b.remote_port
        && (a.lan_host_ip_addr == b.lan_host_ip_addr
            && (a.lan_host_port == b.lan_host_port && a.ipv4_head_proto == b.ipv4_head_proto)))

abbrev pub wan_key_eq : NatWanFlowHash → NatWanFlowHash → Bool
wan_key_eq a b =
    a.remote_ip_addr == b.remote_ip_addr
    && (a.remote_port == b.remote_port
        && (a.wan_ip_addr == b.wan_ip_addr
            && (a.wan_port == b.wan_port && a.ipv4_head_proto == b.ipv4_head_proto)))

pub flow_key_eq_iff : (a b : NatFlowHash) → (flow_key_eq a b ≡ true) ↔ (a ≡ b)
flow_key_eq_iff a b = ground arith

pub wan_key_eq_iff : (a b : NatWanFlowHash) → (wan_key_eq a b ≡ true) ↔ (a ≡ b)
wan_key_eq_iff a b = ground arith

instance abbrev pub flow_key : Eq NatFlowHash
flow_key = record { beq = flow_key_eq; beq_iff = flow_key_eq_iff }

instance abbrev pub wan_key : Eq NatWanFlowHash
wan_key = record { beq = wan_key_eq; beq_iff = wan_key_eq_iff }
