-- ===== src/Protocols.antt =====
-- The protocol analyzers of analyzer/tcp and analyzer/udp.
pub mod Openvpn
pub mod Wireguard
pub mod Trojan
pub mod Fet
pub mod Socks
pub mod Duplex
pub mod TlsHello
pub mod Tls
pub mod Ssh
pub mod Http
pub mod Dns
