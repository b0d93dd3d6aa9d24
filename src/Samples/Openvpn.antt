-- ===== src/Samples/Openvpn.antt =====
-- Tests of analyzer/udp/openvpn.go: a client's hard reset (opcode 7), a server's (opcode 8), and
-- packets of data (opcode 9).
use open_gfw_for_frp_integra.Prelude.{Outcome, ok, ◌≡◌, refl, true, false, none, List, [], ◌∷◌}
use open_gfw_for_frp_integra.Protocols.Openvpn.{
  is_client_reset, is_server_reset, is_traffic, check_for_valid_opcode, OpenvpnStream, Fed,
}
use open_gfw_for_frp_integra.Protocols.Openvpn.Udp.{CurPkt, parse_pkt, new_openvpn_udp_stream}
use open_gfw_for_frp_integra.Protocols.Openvpn.Udp.Conversation.{Packet, feed_all}

abbrev session : List Packet
session = (false, 56, 1 ∷ []) ∷ (true, 64, 2 ∷ []) ∷ (false, 72, []) ∷ (true, 72, []) ∷ []

abbrev fed_or_new : Outcome (Fed (OpenvpnStream CurPkt)) → Fed (OpenvpnStream CurPkt)
fed_or_new (ok r) = r
fed_or_new _ = record { stream = new_openvpn_udp_stream; update = none; is_done = true }

abbrev after_session : Fed (OpenvpnStream CurPkt)
after_session = fed_or_new (feed_all session new_openvpn_udp_stream)

all_counted : after_session.stream.state.tx_pkt_cnt ≡ 1
unfolding feed_all new_openvpn_udp_stream parse_pkt check_for_valid_opcode is_client_reset
    is_server_reset is_traffic
all_counted = refl
