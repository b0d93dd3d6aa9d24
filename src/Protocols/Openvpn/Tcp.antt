-- ===== src/Protocols/Openvpn/Tcp.antt =====
-- `openvpnTCPStream`: packets come from the buffer of their direction, each behind its length.
pub mod Frames
use open_gfw_for_frp_integra.Prelude.{
  ltb, ◌==◌, if◌then◌else◌, get_or, drop, Outcome, ok, panic, ℕ, ◌+◌, ◌/◌, ◌%◌, Bool, true, false,
  none, some, List, [], ◌∷◌,
}
use open_gfw_for_frp_integra.Analyzer.{merge, replace}
use open_gfw_for_frp_integra.Utils.Lsm.{LsmAction, pause, next, cancel}
use open_gfw_for_frp_integra.Utils.ByteBuffer.{ByteBuffer, append, get, get_uint16, reset}
use open_gfw_for_frp_integra.Protocols.Openvpn.{
  openvpn_min_pkt_len, check_for_valid_opcode, Parsed, OpenvpnStream, Fed, new_stream, run_resp,
  run_req,
}

pub record Buffers : Type 0 where
  pub req_buf : ByteBuffer
  pub resp_buf : ByteBuffer

abbrev pub buffer_of : Bool → Buffers → ByteBuffer
buffer_of true s = s.resp_buf
buffer_of false s = s.req_buf

abbrev pub set_buffer : Bool → Buffers → ByteBuffer → Buffers
set_buffer true s b = record s { resp_buf = b }
set_buffer false s b = record s { req_buf = b }

abbrev refused : LsmAction → Buffers → Outcome (Parsed Buffers)
refused action s = ok (record { pkt = none; action = action; source = s })

-- The last part of `parsePkt`: the whole packet, whose first two bytes are its length.
unfoldable pub take_pkt : Bool → ℕ → Buffers → Outcome (Parsed Buffers)
take_pkt rev pkt_len s =
    let (whole, rest) = get (pkt_len + 2) true (buffer_of rev s) in
    elim whole [
      | none ↦ refused pause s
      | some bytes ↦ elim (drop 2 bytes) [
        | [] ↦ panic
        | b ∷ _ ↦ ok (record {
          pkt = some (record { pkt_len = pkt_len; opcode = b / 8; key_id = b % 8 });
          action = next;
          source = set_buffer rev s rest;
        })
      ]
    ]

unfoldable pub check_opcode : Bool → ℕ → Buffers → Outcome (Parsed Buffers)
unfolding take_pkt
check_opcode rev pkt_len s = elim ((get 3 false (buffer_of rev s)).0) [
  | none ↦ refused pause s
  | some pkt_op ↦
      if check_for_valid_opcode (get_or pkt_op 2 0 / 8)
      then take_pkt rev pkt_len s
      else refused cancel s
]

unfoldable pub parse_pkt : Bool → Buffers → Outcome (Parsed Buffers)
unfolding check_opcode
parse_pkt rev s = elim ((get_uint16 false false (buffer_of rev s)).0) [
  | none ↦ refused pause s
  | some pkt_len ↦
      if ltb pkt_len openvpn_min_pkt_len then refused cancel s else check_opcode rev pkt_len s
]

unfoldable pub new_openvpn_tcp_stream : OpenvpnStream Buffers
unfolding new_stream
new_openvpn_tcp_stream = new_stream (record { req_buf = []; resp_buf = [] })

-- The data is appended to the buffer of its direction.
unfoldable pub arrive : Bool → List ℕ → OpenvpnStream Buffers → OpenvpnStream Buffers
unfolding append
arrive rev bytes o =
    let b = o.state.source in
    record o {
      state = record (o.state) { source = set_buffer rev b (append (buffer_of rev b) bytes) };
    }

-- The server's packets send a replacing update, the client's a merging one.
unfoldable pub feed_data :
    Bool → List ℕ → OpenvpnStream Buffers → Outcome (Fed (OpenvpnStream Buffers))
unfolding run_resp run_req arrive
feed_data rev [] o = ok (record { stream = o; update = none; is_done = false })
feed_data true (b ∷ bs) o = run_resp parse_pkt replace (arrive true (b ∷ bs) o)
feed_data false (b ∷ bs) o = run_req parse_pkt merge (arrive false (b ∷ bs) o)

unfoldable pub feed :
    Bool → ℕ → List ℕ → OpenvpnStream Buffers → Outcome (Fed (OpenvpnStream Buffers))
unfolding feed_data
feed rev skip bytes o =
    if skip == 0
    then feed_data rev bytes o
    else ok (record { stream = o; update = none; is_done = true })

unfoldable pub close : OpenvpnStream Buffers → OpenvpnStream Buffers
unfolding reset
close o =
    let b = o.state.source in
    record o {
      state = record (o.state) {
        source = record { req_buf = reset b.req_buf; resp_buf = reset b.resp_buf };
      };
    }
