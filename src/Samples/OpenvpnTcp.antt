-- ===== src/Samples/OpenvpnTcp.antt =====
-- Tests of the TCP stream of analyzer/udp/openvpn.go: packets framed by their length.
use open_gfw_for_frp_integra.Prelude.{ok, ◌≡◌, refl, false, some, [], ◌∷◌, arith}
use open_gfw_for_frp_integra.Utils.Lsm.{next}
use open_gfw_for_frp_integra.Protocols.Openvpn.{check_for_valid_opcode, OpenvpnStream, Fed}
use open_gfw_for_frp_integra.Protocols.Openvpn.Returns.{HasTwoSteps}
use open_gfw_for_frp_integra.Protocols.Openvpn.Tcp.{
  Buffers, parse_pkt, new_openvpn_tcp_stream, feed,
}
use open_gfw_for_frp_integra.Protocols.Openvpn.Tcp.Frames.{parse_pkt_frame, feed_returns}

-- Six bytes of opcode 9 behind their length, and one byte of the next packet.
abbrev framed : Buffers
framed = record { req_buf = 0 ∷ 6 ∷ 72 ∷ 1 ∷ 2 ∷ 3 ∷ 4 ∷ 5 ∷ 0 ∷ []; resp_buf = [] }

parse_pkt_frame_example :
    parse_pkt false framed
    ≡ ok (record {
      pkt = some (record { pkt_len = 6; opcode = 9; key_id = 0 });
      action = next;
      source = record { req_buf = 0 ∷ []; resp_buf = [] };
    })
unfolding check_for_valid_opcode
parse_pkt_frame_example =
    parse_pkt_frame false framed 0 6 72 (1 ∷ 2 ∷ 3 ∷ 4 ∷ 5 ∷ []) (0 ∷ []) (omega arith)
      (omega arith) refl (omega arith) refl refl

feed_returns_example :
    (r : Fed (OpenvpnStream Buffers)) × (feed false 0 (0 ∷ 6 ∷ 56 ∷ []) new_openvpn_tcp_stream
      ≡ ok r)
    × HasTwoSteps r.stream
unfolding new_openvpn_tcp_stream
feed_returns_example =
    feed_returns false 0 (0 ∷ 6 ∷ 56 ∷ []) new_openvpn_tcp_stream
      (record { req_steps = refl; resp_steps = refl })
