-- ===== src/Protocols/Socks/Steps.antt =====
-- The SOCKS4 methods of analyzer/tcp/socks.go, the steps that read the version, and `Feed`.
use open_gfw_for_frp_integra.Prelude.{
  ◌==◌, if◌then◌else◌, length, take, drop, Outcome, ok, ◌>>=◌, ℕ, ◌-◌, Bool, true, false, not, ◌&&◌,
  ◌||◌, Option, none, some, List, [], ◌∷◌,
}
use open_gfw_for_frp_integra.Analyzer.{
  num, text, ip, props, null, entries, end, field, merge, PropUpdate,
}
use open_gfw_for_frp_integra.Utils.Lsm.{
  pause, next, cancel, Lsm, RunResult, new_lsm, append_steps, run,
}
use open_gfw_for_frp_integra.Utils.ByteBuffer.{append, get, get_byte, get_until, reset}
use open_gfw_for_frp_integra.Protocols.Socks.{
  Version, socks_invalid, socks4, socks4a, socks5, Step, req_version, socks4_req_ip_and_port,
  socks4_req_user_id, socks4_req_hostname, socks5_req_method, socks5_req_auth, socks5_req_conn_info,
  resp_version, socks4_resp_packet, socks5_resp_method, socks5_resp_auth, socks5_resp_conn_info,
  SocksState, Result, stepped, at, join16, set_req, parse_socks5_req_method, parse_socks5_req_auth,
  parse_socks5_req_conn_info, parse_socks5_resp_method, parse_socks5_resp_auth,
  parse_socks5_resp_conn_info,
}

-- The end of `parseSocks4ReqIPAndPort`: the command is one of the two.
unfoldable pub finish_socks4_req : List ℕ → Lsm Step → SocksState → Result
unfolding join16
finish_socks4_req pkt m s = do
  t ← set_req "cmd" (num (at pkt 0)) s
  u ← set_req "addr" (ip (take 4 (drop 3 pkt))) t
  v ← set_req "addr_type" (num 0x01) u
  w ← set_req "port" (num (join16 (at pkt 1) (at pkt 2))) v
  stepped next m (record w { req_updated = true })

unfoldable pub parse_socks4_req_ip_and_port : Lsm Step → SocksState → Result
unfolding finish_socks4_req
parse_socks4_req_ip_and_port m s =
    let r = get 7 true s.req_buf in
    elim (r.0) [
      | none ↦ stepped pause m s
      | some pkt ↦
          let t = record s { req_buf = r.1 } in
          let domain_follows = at pkt 3 == 0 && at pkt 4 == 0 && at pkt 5 == 0 in
          let u = if domain_follows then record t { version = socks4a } else t in
          if at pkt 0 == 0x01 || at pkt 0 == 0x02
          then finish_socks4_req pkt m u
          else stepped cancel m t
    ]

abbrev pub all_but_last : List ℕ → List ℕ
all_but_last bytes = take (length bytes - 1) bytes

unfoldable pub parse_socks4_req_user_id : Lsm Step → SocksState → Result
parse_socks4_req_user_id m s =
    let r = get_until (0 ∷ []) true true s.req_buf in
    elim (r.0) [
      | none ↦ stepped pause m s
      | some user ↦
          set_req "auth" (props (entries (field "user_id" (text (all_but_last user)) end)))
            (record s { req_buf = r.1 })
          >>= λ t. stepped next m (record t { req_updated = true })
    ]

abbrev is_socks4a : Version → Bool
is_socks4a socks4a = true
is_socks4a _ = false

unfoldable pub parse_socks4_req_hostname : Lsm Step → SocksState → Result
parse_socks4_req_hostname m s =
    let r = get_until (0 ∷ []) true true s.req_buf in
    if is_socks4a s.version
    then elim (r.0) [
      | none ↦ stepped pause m s
      | some host ↦ do
        t ← set_req "addr" (text (all_but_last host)) (record s { req_buf = r.1 })
        u ← set_req "addr_type" (num 0x03) t
        stepped next m (record u { req_updated = true })
    ]
    else stepped next m s

unfoldable pub is_socks4_reply : ℕ → Bool
is_socks4_reply code = code == 0x5a || code == 0x5b || code == 0x5c || code == 0x5d

unfoldable pub parse_socks4_resp_packet : Lsm Step → SocksState → Result
unfolding join16 is_socks4_reply
parse_socks4_resp_packet m s =
    let r = get 7 true s.resp_buf in
    elim (r.0) [
      | none ↦ stepped pause m s
      | some pkt ↦
          let t = record s { resp_buf = r.1 } in
          let found = entries (
            field "rep" (num (at pkt 0)) (
              field "addr" (ip (take 4 (drop 3 pkt))) (
                field "addr_type" (num 0x01)
                  (field "port" (num (join16 (at pkt 1) (at pkt 2))) end)))) in
          if is_socks4_reply (at pkt 0)
          then stepped next m (record t { resp_map = found; resp_updated = true })
          else stepped cancel m t
    ]

abbrev pub socks4_req_steps : List Step
socks4_req_steps = socks4_req_ip_and_port ∷ socks4_req_user_id ∷ socks4_req_hostname ∷ []

abbrev pub socks5_req_steps : List Step
socks5_req_steps = socks5_req_method ∷ socks5_req_auth ∷ socks5_req_conn_info ∷ []

abbrev pub socks5_resp_steps : List Step
socks5_resp_steps = socks5_resp_method ∷ socks5_resp_auth ∷ socks5_resp_conn_info ∷ []

unfoldable pub parse_socks_req_version : Lsm Step → SocksState → Result
unfolding append_steps
parse_socks_req_version m s =
    let r = get_byte true s.req_buf in
    elim (r.0) [
      | none ↦ stepped pause m s
      | some ver ↦
          let t = record s { req_buf = r.1 } in
          let u = record t { req_map = entries end; req_updated = true } in
          if ver == 0x04
          then stepped next (append_steps m socks4_req_steps) (record u { version = socks4 })
          else if ver == 0x05
          then stepped next (append_steps m socks5_req_steps) (record u { version = socks5 })
          else stepped cancel m t
    ]

-- Whether the server's version does not answer the client's.
abbrev pub mismatch : Version → ℕ → Bool
mismatch socks4 ver = not (ver == 0x00)
mismatch socks4a ver = not (ver == 0x00)
mismatch socks5 ver = not (ver == 0x05)
mismatch socks_invalid ver = true

unfoldable pub parse_socks_resp_version : Lsm Step → SocksState → Result
unfolding append_steps
parse_socks_resp_version m s =
    let r = get_byte true s.resp_buf in
    elim (r.0) [
      | none ↦ stepped pause m s
      | some ver ↦
          let t = record s { resp_buf = r.1 } in
          if mismatch s.version ver
          then stepped cancel m t
          else if ver == 0x00
          then stepped next (append_steps m (socks4_resp_packet ∷ [])) t
          else stepped next (append_steps m socks5_resp_steps) t
    ]

unfoldable pub exec : Step → Lsm Step → SocksState → Result
exec req_version m s = parse_socks_req_version m s
exec socks4_req_ip_and_port m s = parse_socks4_req_ip_and_port m s
exec socks4_req_user_id m s = parse_socks4_req_user_id m s
exec socks4_req_hostname m s = parse_socks4_req_hostname m s
exec socks5_req_method m s = parse_socks5_req_method m s
exec socks5_req_auth m s = parse_socks5_req_auth m s
exec socks5_req_conn_info m s = parse_socks5_req_conn_info m s
exec resp_version m s = parse_socks_resp_version m s
exec socks4_resp_packet m s = parse_socks4_resp_packet m s
exec socks5_resp_method m s = parse_socks5_resp_method m s
exec socks5_resp_auth m s = parse_socks5_resp_auth m s
exec socks5_resp_conn_info m s = parse_socks5_resp_conn_info m s

pub record SocksStream : Type 0 where
  pub state : SocksState
  pub req_lsm : Lsm Step
  pub req_done : Bool
  pub resp_lsm : Lsm Step
  pub resp_done : Bool

unfoldable pub new_socks_stream : SocksStream
unfolding new_lsm
new_socks_stream = record {
  state = record {
    req_buf = [];
    req_map = null;
    req_updated = false;
    resp_buf = [];
    resp_map = null;
    resp_updated = false;
    version = socks_invalid;
    auth_req_method = 0;
    auth_username = [];
    auth_password = [];
    auth_resp_method = 0;
  };
  req_lsm = new_lsm (req_version ∷ []);
  req_done = false;
  resp_lsm = new_lsm (resp_version ∷ []);
  resp_done = false;
}

-- `socksVersion`
unfoldable pub socks_version : Version → ℕ
socks_version socks4 = 0x04
socks_version socks4a = 0x04
socks_version socks5 = 0x05
socks_version socks_invalid = 0

pub record Fed : Type 0 where
  pub stream : SocksStream
  pub update : Option PropUpdate
  pub is_done : Bool

-- A machine runs its version step and at most three more, and then one round ends it.
abbrev pub run_fuel : ℕ
run_fuel = 6

unfoldable pub finish_resp : SocksStream → RunResult Step SocksState → Fed
finish_resp o r = record {
  stream = record o {
    state = record (r.state) { resp_updated = false };
    resp_lsm = r.machine;
    resp_done = r.was_done;
  };
  update =
      if r.state.resp_updated
      then some (record { type = merge; m = entries (field "resp" (props r.state.resp_map) end) })
      else none;
  is_done = r.was_cancelled || (o.req_done && r.was_done);
}

unfoldable pub finish_req : SocksStream → RunResult Step SocksState → Fed
unfolding socks_version
finish_req o r = record {
  stream = record o {
    state = record (r.state) { req_updated = false };
    req_lsm = r.machine;
    req_done = r.was_done;
  };
  update =
      if r.state.req_updated
      then some (record {
        type = merge;
        m = entries (
            field "version" (num (socks_version r.state.version))
              (field "req" (props r.state.req_map) end));
      })
      else none;
  is_done = r.was_cancelled || (r.was_done && o.resp_done);
}

unfoldable pub feed_data : Bool → List ℕ → SocksStream → Outcome Fed
unfolding append exec run finish_req finish_resp
feed_data true bytes o =
    let s = record (o.state) { resp_buf = append o.state.resp_buf bytes; resp_updated = false } in
    run exec run_fuel o.resp_lsm s >>= λ r. ok (finish_resp o r)
feed_data false bytes o =
    let s = record (o.state) { req_buf = append o.state.req_buf bytes; req_updated = false } in
    run exec run_fuel o.req_lsm s >>= λ r. ok (finish_req o r)

unfoldable pub feed : Bool → ℕ → List ℕ → SocksStream → Outcome Fed
unfolding feed_data
feed rev skip [] o = ok (record { stream = o; update = none; is_done = not (skip == 0) })
feed rev skip (b ∷ bytes) o =
    if skip == 0
    then feed_data rev (b ∷ bytes) o
    else ok (record { stream = o; update = none; is_done = true })

unfoldable pub close : SocksStream → SocksStream
unfolding reset
close o = record o {
  state = record (o.state) {
    req_buf = reset o.state.req_buf;
    req_map = null;
    resp_buf = reset o.state.resp_buf;
    resp_map = null;
  };
}
