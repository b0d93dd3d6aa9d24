-- ===== src/Samples.antt =====
-- Tests on concrete inputs, and an instance of each theorem that has hypotheses.
pub mod Bytes
pub mod Udp
pub mod Tcp
pub mod Openvpn
pub mod OpenvpnTcp
pub mod Wireguard
pub mod Trojan
pub mod Fet
pub mod Socks
pub mod Machine
pub mod Tls
pub mod Ssh
pub mod Http
pub mod Dns
pub mod Manager
pub mod Expr
pub mod Geo
