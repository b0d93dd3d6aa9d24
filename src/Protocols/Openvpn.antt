-- ===== src/Protocols/Openvpn.antt =====
-- analyzer/udp/openvpn.go. `openvpnStream` is embedded in a UDP stream and a TCP stream, which
-- differ in where packets come from: here the state `P` of that source and a `parse` over it,
-- which is handed the direction. A byte `b` is `b >> 3` as `b / 8` and `b & 7` as `b % 8`.
pub mod Returns
pub mod Udp
pub mod Tcp
use open_gfw_for_frp_integra.Prelude.{
  ltb, ◌==◌, if◌then◌else◌, Outcome, ok, panic, ◌>>=◌, ℕ, ◌+◌, Bool, true, false, ◌&&◌, ◌||◌,
  Option, none, some, [], ◌∷◌, arith,
}
use open_gfw_for_frp_integra.Analyzer.{
  num, PropMap, entries, end, field, PropUpdateType, PropUpdate,
}
use open_gfw_for_frp_integra.Utils.Lsm.{
  LsmAction, pause, next, cancel, Lsm, new_lsm, RunResult, Stepped, run,
}

abbrev pub openvpn_min_pkt_len : ℕ
openvpn_min_pkt_len = 6

abbrev pub openvpn_pkt_default_limit : ℕ
openvpn_pkt_default_limit = 256

-- The opcodes of hard resets, of the other packets, and of all packets (OpenVPNCheckForValidOpcode).
unfoldable pub is_client_reset : ℕ → Bool
is_client_reset op = op == 1 || op == 7 || op == 10

unfoldable pub is_server_reset : ℕ → Bool
is_server_reset op = op == 2 || op == 8

unfoldable pub is_traffic : ℕ → Bool
is_traffic op = op == 3 || op == 4 || op == 5 || op == 6 || op == 9 || op == 11

unfoldable pub check_for_valid_opcode : ℕ → Bool
check_for_valid_opcode op =
    op == 1
    || op == 2
    || op == 3
    || op == 4
    || op == 5
    || op == 6
    || op == 7
    || op == 8
    || op == 9
    || op == 10
    || op == 11

pub record OpenvpnPkt : Type 0 where
  pub pkt_len : ℕ
  pub opcode : ℕ
  pub key_id : ℕ

-- What a parse function returns, with the source that it leaves; nil is `none`.
pub record Parsed (P : Type 0) : Type 0 where
  pub pkt : Option OpenvpnPkt
  pub action : LsmAction
  pub source : P

-- The steps of the two machines, by the name of the method.
pub data Step : Type 0 where
  ctl_hard_reset_client ctl_hard_reset_server parse_req parse_resp : Step

-- The fields but for the two machines, which `Run` is handed beside it.
pub record OpenvpnState (P : Type 0) : Type 0 where
  pub req_updated : Bool
  pub resp_updated : Bool
  pub rx_pkt_cnt : ℕ
  pub tx_pkt_cnt : ℕ
  pub last_opcode : ℕ
  pub source : P

pub record OpenvpnStream (P : Type 0) : Type 0 where
  pub state : OpenvpnState P
  pub req_lsm : Lsm Step
  pub req_done : Bool
  pub resp_lsm : Lsm Step
  pub resp_done : Bool
  pub pkt_limit : ℕ

-- What `Feed` returns.
pub record Fed (S : Type 0) : Type 0 where
  pub stream : S
  pub update : Option PropUpdate
  pub is_done : Bool

module _ {P : Type 0} where
  unfoldable pub new_stream : P → OpenvpnStream P
  unfolding new_lsm
  new_stream source = record {
    state = record {
      req_updated = false;
      resp_updated = false;
      rx_pkt_cnt = 0;
      tx_pkt_cnt = 0;
      last_opcode = 0;
      source = source;
    };
    req_lsm = new_lsm (ctl_hard_reset_client ∷ parse_req ∷ []);
    req_done = false;
    resp_lsm = new_lsm (ctl_hard_reset_server ∷ parse_resp ∷ []);
    resp_done = false;
    pkt_limit = openvpn_pkt_default_limit;
  }

  abbrev pub stepped :
      LsmAction → Lsm Step → OpenvpnState P → Outcome (Stepped Step (OpenvpnState P))
  stepped action m s = ok (record { action = action; machine = m; state = s })

  -- What a step does with the packet of its parse function: a result that is not "next" is the
  -- step's own, and a nil packet would be dereferenced.
  unfoldable pub with_pkt :
      Parsed P
      → (OpenvpnPkt → OpenvpnState P → LsmAction × OpenvpnState P)
      → Lsm Step
      → OpenvpnState P
      → Outcome (Stepped Step (OpenvpnState P))
  with_pkt r body m s =
      let t = record s { source = r.source } in
      elim (r.action) [
        | next ↦ elim (r.pkt) [ none ↦ panic | some pkt ↦ stepped (body pkt t).0 m (body pkt t).1 ]
        | a ↦ stepped a m t
      ]

  unfoldable pub client_reset_body : OpenvpnPkt → OpenvpnState P → LsmAction × OpenvpnState P
  client_reset_body pkt s =
      if is_client_reset pkt.opcode
      then (next, record s { last_opcode = pkt.opcode })
      else (cancel, s)

  unfoldable pub server_reset_body : OpenvpnPkt → OpenvpnState P → LsmAction × OpenvpnState P
  server_reset_body pkt s =
      if is_server_reset pkt.opcode
      then (next, record s { last_opcode = pkt.opcode })
      else (cancel, s)

  unfoldable pub req_body : OpenvpnPkt → OpenvpnState P → LsmAction × OpenvpnState P
  req_body pkt s =
      if is_traffic pkt.opcode
      then (pause, record s { tx_pkt_cnt = s.tx_pkt_cnt + 1; req_updated = true })
      else (cancel, s)

  unfoldable pub resp_body : OpenvpnPkt → OpenvpnState P → LsmAction × OpenvpnState P
  resp_body pkt s =
      if is_traffic pkt.opcode
      then (pause, record s { rx_pkt_cnt = s.rx_pkt_cnt + 1; resp_updated = true })
      else (cancel, s)

  -- `PropMap{"rx_pkt_cnt": …, "tx_pkt_cnt": …}`
  unfoldable pub counters : OpenvpnState P → PropMap
  counters s =
      entries (field "rx_pkt_cnt" (num s.rx_pkt_cnt) (field "tx_pkt_cnt" (num s.tx_pkt_cnt) end))

  -- The second result of both `Feed` methods.
  unfoldable pub is_over : Bool → OpenvpnStream P → Bool
  is_over cancelled o =
      cancelled
      || (o.req_done && o.resp_done)
      || ltb o.pkt_limit (o.state.rx_pkt_cnt + o.state.tx_pkt_cnt)

  -- What `Feed` does with the results of `respLSM.Run()`.
  unfoldable pub finish_resp :
      PropUpdateType → OpenvpnStream P → RunResult Step (OpenvpnState P) → Fed (OpenvpnStream P)
  unfolding counters is_over
  finish_resp type o r =
      let p = record o {
        state = record (r.state) { resp_updated = false };
        resp_lsm = r.machine;
        resp_done = r.was_done;
      } in
      record {
        stream = p;
        update =
            if r.state.resp_updated
            then some (record { type = type; m = counters r.state })
            else none;
        is_done = is_over r.was_cancelled p;
      }

  -- What `Feed` does with the results of `reqLSM.Run()`.
  unfoldable pub finish_req :
      PropUpdateType → OpenvpnStream P → RunResult Step (OpenvpnState P) → Fed (OpenvpnStream P)
  unfolding counters is_over
  finish_req type o r =
      let p = record o {
        state = record (r.state) { req_updated = false };
        req_lsm = r.machine;
        req_done = r.was_done;
      } in
      record {
        stream = p;
        update =
            if r.state.req_updated
            then some (record { type = type; m = counters r.state })
            else none;
        is_done = is_over r.was_cancelled p;
      }

-- A machine has two steps, so three rounds end it.
abbrev pub run_fuel : ℕ
run_fuel = 3

module _ {P : Type 0} (parse : Bool → P → Outcome (Parsed P)) where
  unfoldable pub exec : Step → Lsm Step → OpenvpnState P → Outcome (Stepped Step (OpenvpnState P))
  unfolding with_pkt client_reset_body server_reset_body req_body resp_body
  exec ctl_hard_reset_client m s = parse false s.source >>= λ r. with_pkt r client_reset_body m s
  exec ctl_hard_reset_server m s =
      let go = parse true s.source >>= λ r. with_pkt r server_reset_body m s in
      if is_client_reset s.last_opcode then go else stepped cancel m s
  exec parse_req m s = parse false s.source >>= λ r. with_pkt r req_body m s
  exec parse_resp m s = parse true s.source >>= λ r. with_pkt r resp_body m s

  -- The branches of `Feed` after the data has arrived, for the type of update that they send.
  unfoldable pub run_resp : PropUpdateType → OpenvpnStream P → Outcome (Fed (OpenvpnStream P))
  unfolding exec run finish_resp
  run_resp type o =
      run exec run_fuel o.resp_lsm (record (o.state) { resp_updated = false }) >>= λ r.
      ok (finish_resp type o r)

  unfoldable pub run_req : PropUpdateType → OpenvpnStream P → Outcome (Fed (OpenvpnStream P))
  unfolding exec run finish_req
  run_req type o = run exec run_fuel o.req_lsm (record (o.state) { req_updated = false }) >>= λ r.
      ok (finish_req type o r)
