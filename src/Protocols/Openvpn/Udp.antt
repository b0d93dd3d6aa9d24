-- ===== src/Protocols/Openvpn/Udp.antt =====
-- `openvpnUDPStream`: the source of packets is `curPkt`, Go's nil as `none`.
pub mod Conversation
pub mod Trace
use open_gfw_for_frp_integra.Prelude.{
  if◌then◌else◌, Outcome, ok, panic, ℕ, ◌/◌, ◌%◌, Bool, true, false, Option, none, some, List, [],
  ◌∷◌,
}
use open_gfw_for_frp_integra.Analyzer.{replace}
use open_gfw_for_frp_integra.Utils.Lsm.{pause, next, cancel}
use open_gfw_for_frp_integra.Protocols.Openvpn.{
  check_for_valid_opcode, Parsed, OpenvpnStream, Fed, new_stream, run_resp, run_req,
}

abbrev pub CurPkt : Type 0
CurPkt = Option (List ℕ)

-- `parsePkt`: both directions use it; an empty packet would be read out of range.
unfoldable pub parse_pkt : Bool → CurPkt → Outcome (Parsed CurPkt)
parse_pkt rev none = ok (record { pkt = none; action = pause; source = none })
parse_pkt rev (some []) = panic
parse_pkt rev (some (b ∷ bs)) =
    if check_for_valid_opcode (b / 8)
    then ok (record {
      pkt = some (record { pkt_len = 0; opcode = b / 8; key_id = b % 8 });
      action = next;
      source = none;
    })
    else ok (record { pkt = none; action = cancel; source = some (b ∷ bs) })

unfoldable pub new_openvpn_udp_stream : OpenvpnStream CurPkt
unfolding new_stream
new_openvpn_udp_stream = new_stream none

-- `o.curPkt = data`
abbrev pub set_cur_pkt : OpenvpnStream CurPkt → List ℕ → OpenvpnStream CurPkt
set_cur_pkt o bytes = record o { state = record (o.state) { source = some bytes } }

unfoldable pub feed : Bool → List ℕ → OpenvpnStream CurPkt → Outcome (Fed (OpenvpnStream CurPkt))
unfolding run_resp run_req
feed rev [] o = ok (record { stream = o; update = none; is_done = false })
feed true (b ∷ bs) o = run_resp parse_pkt replace (set_cur_pkt o (b ∷ bs))
feed false (b ∷ bs) o = run_req parse_pkt replace (set_cur_pkt o (b ∷ bs))
