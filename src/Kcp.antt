-- ===== src/Kcp.antt =====
-- The kcp package: Halo's own connection control messages. The rest of the package is a copy of
-- the kcp-go library.
pub mod Enet
