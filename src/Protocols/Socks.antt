-- ===== src/Protocols/Socks.antt =====
-- analyzer/tcp/socks.go. Every method of `socksStream` is a function of the stream's fields; the
-- two machines are handed to their steps, which append to them. A byte at an index that a successful
-- `Get` covers is read with `at`; the slice of the domain name keeps the source's byte arithmetic.
pub mod Steps
pub mod Domain
pub mod Auth
use Prim.Native.Nat.{bit_or}
use open_gfw_for_frp_integra.Prelude.{
  ltb, ◌==◌, if◌then◌else◌, get_or, take, drop, Outcome, ok, panic, ◌>>=◌, ℕ, ◌+◌, ◌-◌, ◌*◌, ◌%◌,
  ◌^◌, String, Bool, true, false, not, ◌||◌, Option, none, some, List, [], ◌∷◌, arith,
}
use open_gfw_for_frp_integra.Analyzer.{
  Value, num, text, ip, props, PropMap, entries, end, field, insert_prop,
}
use open_gfw_for_frp_integra.Utils.Lsm.{LsmAction, pause, next, cancel, Lsm, Stepped}
use open_gfw_for_frp_integra.Utils.ByteBuffer.{ByteBuffer, get}

pub data Version : Type 0 where
  socks_invalid socks4 socks4a socks5 : Version

-- The methods that are steps of the request machine and of the response machine.
pub data Step : Type 0 where
  req_version socks4_req_ip_and_port socks4_req_user_id socks4_req_hostname : Step
  socks5_req_method socks5_req_auth socks5_req_conn_info : Step
  resp_version socks4_resp_packet : Step
  socks5_resp_method socks5_resp_auth socks5_resp_conn_info : Step

pub record SocksState : Type 0 where
  pub req_buf : ByteBuffer
  pub req_map : PropMap
  pub req_updated : Bool
  pub resp_buf : ByteBuffer
  pub resp_map : PropMap
  pub resp_updated : Bool
  pub version : Version
  pub auth_req_method : ℕ
  pub auth_username : List ℕ
  pub auth_password : List ℕ
  pub auth_resp_method : ℕ

abbrev pub Result : Type 0
Result = Outcome (Stepped Step SocksState)

abbrev pub stepped : LsmAction → Lsm Step → SocksState → Result
stepped action m s = ok (record { action = action; machine = m; state = s })

abbrev pub at : List ℕ → ℕ → ℕ
at bytes i = get_or bytes i 0

-- `bytes[lo:hi]`: a high bound below the low one panics.
unfoldable pub slice : ℕ → ℕ → List ℕ → Outcome (List ℕ)
slice lo hi bytes = if ltb hi lo then panic else ok (take (hi - lo) (drop lo bytes))

-- `int(a)<<8 | int(b)`
unfoldable pub join16 : ℕ → ℕ → ℕ
join16 a b = bit_or (a * 2 ^ 8) b

abbrev pub set_req : String → Value → SocksState → Outcome SocksState
set_req k v s = insert_prop k v s.req_map >>= λ m. ok (record s { req_map = m })

abbrev pub set_resp : String → Value → SocksState → Outcome SocksState
set_resp k v s = insert_prop k v s.resp_map >>= λ m. ok (record s { resp_map = m })

abbrev pub auth_no_matching_method : ℕ
auth_no_matching_method = 0xff

-- The loop of `parseSocks5ReqMethod` over the methods that the client offers.
unfoldable pub first_method : List ℕ → ℕ
first_method [] = auth_no_matching_method
first_method (m ∷ ms) = if m == 0x00 then 0x00 else if m == 0x02 then 0x02 else first_method ms

unfoldable pub parse_socks5_req_method : Lsm Step → SocksState → Result
unfolding first_method
parse_socks5_req_method m s = elim ((get 1 false s.req_buf).0) [
  | none ↦ stepped pause m s
  | some n ↦
      let r = get (at n 0 + 1) true s.req_buf in
      elim (r.0) [
        | none ↦ stepped pause m s
        | some methods ↦
            stepped next m
              (record s { req_buf = r.1; auth_req_method = first_method (drop 1 methods) })
      ]
]

-- The end of the password branch of `parseSocks5ReqAuth`: the whole message has arrived.
unfoldable pub finish_password : ℕ → List ℕ → ByteBuffer → Lsm Step → SocksState → Result
finish_password username_len meta rest m s =
    let username = take username_len (drop 2 meta) in
    let password = drop (username_len + 3) meta in
    set_req "auth"
      (props (
        entries (
          field "method" (num s.auth_req_method)
            (field "username" (text username) (field "password" (text password) end)))))
      (record s { req_buf = rest; auth_username = username; auth_password = password })
    >>= λ t. stepped next m (record t { req_updated = true })

unfoldable pub take_password : ℕ → ℕ → Lsm Step → SocksState → Result
unfolding finish_password
take_password username_len password_len m s =
    let r = get (username_len + password_len + 3) true s.req_buf in
    elim (r.0) [ none ↦ stepped pause m s | some meta ↦ finish_password username_len meta r.1 m s ]

unfoldable pub parse_password : Lsm Step → SocksState → Result
unfolding take_password
parse_password m s = elim ((get 2 false s.req_buf).0) [
  | none ↦ stepped pause m s
  | some head ↦
      let username_len = at head 1 in
      if not (at head 0 == 0x01)
      then stepped cancel m s
      else elim ((get (username_len + 3) false s.req_buf).0) [
        | none ↦ stepped pause m s
        | some meta ↦ take_password username_len (at meta (username_len + 2)) m s
      ]
]

unfoldable pub parse_socks5_req_auth : Lsm Step → SocksState → Result
unfolding parse_password
parse_socks5_req_auth m s =
    if s.auth_req_method == 0x00
    then (set_req "auth" (props (entries (field "method" (num s.auth_req_method) end))) s >>= λ t.
        stepped next m (record t { req_updated = true }))
    else if s.auth_req_method == 0x02
    then parse_password m s
    else stepped cancel m s

-- `pktLen`, by the type of the address.
unfoldable pub packet_length : ℕ → ℕ → Option ℕ
packet_length addr_type domain_len =
    if addr_type == 0x01
    then some 10
    else if addr_type == 0x03
    then some (7 + domain_len)
    else if addr_type == 0x04
    then some 22
    else none

-- The address of a packet. The bound `5+pkt[4]` of the domain is a byte, and wraps.
unfoldable pub address : List ℕ → Outcome (Option Value)
unfolding slice
address pkt =
    if at pkt 3 == 0x01
    then ok (some (ip (take 4 (drop 4 pkt))))
    else if at pkt 3 == 0x03
    then (slice 5 ((5 + at pkt 4) % 256) pkt >>= λ name. ok (some (text name)))
    else if at pkt 3 == 0x04
    then ok (some (ip (take 16 (drop 4 pkt))))
    else ok none

abbrev pub port_at : ℕ → List ℕ → Value
port_at pkt_len pkt = num (join16 (at pkt (pkt_len - 2)) (at pkt (pkt_len - 1)))

-- The end of `parseSocks5ReqConnInfo`: the command has been stored.
unfoldable pub finish_req_conn_info : ℕ → List ℕ → Lsm Step → SocksState → Result
unfolding address join16
finish_req_conn_info pkt_len pkt m s = address pkt >>= λ found. elim found [
  | none ↦ stepped cancel m s
  | some addr ↦ do
    t ← set_req "addr_type" (num (at pkt 3)) s
    u ← set_req "addr" addr t
    v ← set_req "port" (port_at pkt_len pkt) u
    stepped next m (record v { req_updated = true })
]

unfoldable pub is_command : ℕ → Bool
is_command cmd = cmd == 0x01 || cmd == 0x02 || cmd == 0x03

unfoldable pub take_req_conn_info : ℕ → Lsm Step → SocksState → Result
unfolding finish_req_conn_info is_command
take_req_conn_info pkt_len m s =
    let r = get pkt_len true s.req_buf in
    elim (r.0) [
      | none ↦ stepped pause m s
      | some pkt ↦
          let t = record s { req_buf = r.1 } in
          if is_command (at pkt 1)
          then (set_req "cmd" (num (at pkt 1)) t >>= λ u. finish_req_conn_info pkt_len pkt m u)
          else stepped cancel m t
    ]

unfoldable pub parse_socks5_req_conn_info : Lsm Step → SocksState → Result
unfolding packet_length take_req_conn_info
parse_socks5_req_conn_info m s = elim ((get 5 false s.req_buf).0) [
  | none ↦ stepped pause m s
  | some pre ↦
      if not (at pre 0 == 0x05)
      then stepped cancel m s
      else elim (packet_length (at pre 3) (at pre 4)) [
        | none ↦ stepped cancel m s
        | some pkt_len ↦ take_req_conn_info pkt_len m s
      ]
]

unfoldable pub parse_socks5_resp_method : Lsm Step → SocksState → Result
parse_socks5_resp_method m s =
    let r = get 1 true s.resp_buf in
    elim (r.0) [
      | none ↦ stepped pause m s
      | some method ↦
          stepped next m
            (record s { resp_buf = r.1; auth_resp_method = at method 0; resp_map = entries end })
    ]

unfoldable pub parse_socks5_resp_auth : Lsm Step → SocksState → Result
parse_socks5_resp_auth m s =
    let r = get 2 true s.resp_buf in
    if s.auth_resp_method == 0x00
    then (set_resp "auth" (props (entries (field "method" (num s.auth_resp_method) end))) s >>= λ t.
        stepped next m (record t { resp_updated = true }))
    else if s.auth_resp_method == 0x02
    then elim (r.0) [
      | none ↦ stepped pause m s
      | some resp ↦
          let t = record s { resp_buf = r.1 } in
          if not (at resp 0 == 0x01)
          then stepped cancel m t
          else set_resp "auth"
              (props (
                entries
                  (field "method" (num s.auth_resp_method) (field "status" (num (at resp 1)) end))))
              t
            >>= λ u. stepped next m (record u { resp_updated = true })
    ]
    else stepped cancel m s

unfoldable pub finish_resp_conn_info : ℕ → List ℕ → Lsm Step → SocksState → Result
unfolding address join16
finish_resp_conn_info pkt_len pkt m s = address pkt >>= λ found. elim found [
  | none ↦ stepped cancel m s
  | some addr ↦ do
    t ← set_resp "addr_type" (num (at pkt 3)) s
    u ← set_resp "addr" addr t
    v ← set_resp "port" (port_at pkt_len pkt) u
    stepped next m (record v { resp_updated = true })
]

unfoldable pub take_resp_conn_info : ℕ → Lsm Step → SocksState → Result
unfolding finish_resp_conn_info
take_resp_conn_info pkt_len m s =
    let r = get pkt_len true s.resp_buf in
    elim (r.0) [
      | none ↦ stepped pause m s
      | some pkt ↦ set_resp "rep" (num (at pkt 1)) (record s { resp_buf = r.1 }) >>= λ u.
          finish_resp_conn_info pkt_len pkt m u
    ]

unfoldable pub parse_socks5_resp_conn_info : Lsm Step → SocksState → Result
unfolding packet_length take_resp_conn_info
parse_socks5_resp_conn_info m s = elim ((get 5 false s.resp_buf).0) [
  | none ↦ stepped pause m s
  | some pre ↦
      if not (at pre 0 == 0x05)
      then stepped cancel m s
      else elim (packet_length (at pre 3) (at pre 4)) [
        | none ↦ stepped cancel m s
        | some pkt_len ↦ take_resp_conn_info pkt_len m s
      ]
]
