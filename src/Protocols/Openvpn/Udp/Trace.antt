-- ===== src/Protocols/Openvpn/Udp/Trace.antt =====
-- Runs of the OpenVPN UDP analyzer over the packets of a stream.
use open_gfw_for_frp_integra.Prelude.{
  ltb, if◌then◌else◌, Outcome, ok, ◌+◌, ◌≤◌, ◌<◌, ◌≡◌, true, Option, none, some, List,
}
use open_gfw_for_frp_integra.Protocols.Openvpn.{openvpn_pkt_default_limit, OpenvpnStream, Fed}
use open_gfw_for_frp_integra.Protocols.Openvpn.Udp.{CurPkt}
use open_gfw_for_frp_integra.Protocols.Openvpn.Udp.Conversation.{
  Conversation, Packet, feed_all, follow_all,
}

follow_on : List Packet → Option Conversation → Option Conversation
follow_on ps d = elim d [
  | none ↦ none
  | some c ↦ if ltb openvpn_pkt_default_limit (c.received + c.sent) then none else follow_all ps c
]

feed_on : List Packet → Fed (OpenvpnStream CurPkt) → Outcome (Fed (OpenvpnStream CurPkt))
feed_on ps r = if r.is_done then ok r else feed_all ps r.stream

-- What holds of a conversation that goes on.
pub record IsOrderly (c : Conversation) : Type 0 where
  pub limited : c.received + c.sent ≤ openvpn_pkt_default_limit
  pub server_after_client : c.server_seen ≡ true → c.client_seen ≡ true
  pub sent_after_reset : 0 < c.sent → c.client_seen ≡ true
  pub received_after_reset : 0 < c.received → c.server_seen ≡ true
