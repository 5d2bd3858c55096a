-- ===== src/Protocol.antt =====
-- The codecs of protocol/*.go.
pub mod Utils
pub mod Arp
pub mod Ethernet
pub mod Icmp
pub mod Ipv4
pub mod Udp
pub mod Rewrite
pub mod Tcp
pub mod Delivery
pub mod Dhcp
