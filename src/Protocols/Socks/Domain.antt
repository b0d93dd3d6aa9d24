-- ===== src/Protocols/Socks/Domain.antt =====
-- analyzer/tcp/socks.go, `parseSocks5ReqConnInfo`: a SOCKS5 request that names a host.
use open_gfw_for_frp_integra.Prelude.{
  ltb, length, get_or, length-append, take-length_append, ok, panic, ℕ, suc, ◌+◌, ◌-◌, ◌*◌, ◌%◌,
  ◌≤◌, ◌<◌, ◌≡◌, refl, ap, ◌∙◌, subst, true, false, some, List, [], ◌∷◌, ◌++◌, arith,
}
use open_gfw_for_frp_integra.Analyzer.{num, text, entries, Fields, insert_field, insert_prop}
use open_gfw_for_frp_integra.Utils.Lsm.{next, Lsm}
use open_gfw_for_frp_integra.Utils.ByteBuffer.{get}
use open_gfw_for_frp_integra.Utils.ByteBuffer.Laws.{get-length_append}
use open_gfw_for_frp_integra.Utils.Bits.{bit_or_comm, bit_or-shift}
use open_gfw_for_frp_integra.Protocols.Socks.{
  Step, SocksState, stepped, at, slice, join16, packet_length, address, port_at,
  finish_req_conn_info, is_command, take_req_conn_info, parse_socks5_req_conn_info,
}

-- RFC 1928, section 4: the request `cmd` to the host `name` and the port `hi`, `lo`.
abbrev pub domain_request : ℕ → ℕ → List ℕ → ℕ → ℕ → List ℕ
domain_request cmd rsv name hi lo = 0x05 ∷ cmd ∷ rsv ∷ 0x03 ∷ length name ∷ (name ++ hi ∷ lo ∷ [])

get_or-append {ℓ} :
    {A : Type ℓ} (xs ys : List A) (i : ℕ) (d : A)
    → get_or (xs ++ ys) (length xs + i) d ≡ get_or ys i d
get_or-append [] ys i d = ap (λ k. get_or ys k d) (omega arith)
get_or-append (x ∷ xs) ys i d =
    ap (λ k. get_or (x ∷ (xs ++ ys)) k d) shifted ∙ get_or-append xs ys i d
  where
    shifted : length (x ∷ xs) + i ≡ suc (length xs + i)
    shifted = omega arith

join16_lem : (hi lo : ℕ) → lo < 256 → join16 hi lo ≡ hi * 256 + lo
unfolding join16
join16_lem hi lo h = omega (arith, bit_or_comm (hi * 256) lo, bit_or-shift 8 lo hi h)

-- The slice of a name of up to 250 bytes is the name; for a longer one the bound wraps around.
slice-domain :
    (cmd rsv hi lo : ℕ) (name : List ℕ)
    → length name ≤ 250
    → slice 5 ((5 + length name) % 256) (domain_request cmd rsv name hi lo) ≡ ok name
unfolding slice
slice-domain cmd rsv hi lo name h =
    rw (bound, ends, taken, take-length_append name (hi ∷ lo ∷ [])) refl
  where
    bound : (5 + length name) % 256 ≡ 5 + length name
    bound = omega arith

    ends : ltb (5 + length name) 5 ≡ false
    ends = ground arith

    taken : 5 + length name - 5 ≡ length name
    taken = omega arith

slice-domain_long :
    (cmd rsv hi lo : ℕ) (name : List ℕ)
    → 250 < length name
    → length name < 256
    → slice 5 ((5 + length name) % 256) (domain_request cmd rsv name hi lo) ≡ panic
unfolding slice
slice-domain_long cmd rsv hi lo name h k = ground arith

-- The first five bytes are read and stay in the buffer.
get-head :
    (a b c d e : ℕ) (rest : List ℕ)
    → get 5 false (a ∷ b ∷ c ∷ d ∷ e ∷ rest)
      ≡ (some (a ∷ b ∷ c ∷ d ∷ e ∷ []), a ∷ b ∷ c ∷ d ∷ e ∷ rest)
unfolding get
get-head a b c d e rest = ground arith

-- Once the packet has arrived, a known command is stored and the rest of the packet is read.
take_req_conn_info-command :
    (n : ℕ) (m : Lsm Step) (s : SocksState) (fs : Fields) (pkt more : List ℕ)
    → get n true s.req_buf ≡ (some pkt, more)
    → is_command (at pkt 1) ≡ true
    → s.req_map ≡ entries fs
    → take_req_conn_info n m s
      ≡ finish_req_conn_info n pkt m
          (record s { req_buf = more; req_map = entries (insert_field "cmd" (num (at pkt 1)) fs) })
unfolding take_req_conn_info insert_prop
take_req_conn_info-command n m s fs pkt more h c e =
    rw (take_req_conn_info, h, c, e)
      (ap
        (λ b.
          finish_req_conn_info n pkt m
            (record s { req_buf = b; req_map = entries (insert_field "cmd" (num (at pkt 1)) fs) }))
        (ap (λ r. r.1) h))

-- A whole request is taken off the buffer once its first five bytes have told its length.
request_taken :
    (m : Lsm Step) (s : SocksState) (fs : Fields) (cmd rsv hi lo : ℕ) (name more : List ℕ)
    → is_command cmd ≡ true
    → s.req_map ≡ entries fs
    → s.req_buf ≡ domain_request cmd rsv name hi lo ++ more
    → parse_socks5_req_conn_info m s
      ≡ finish_req_conn_info
          (7 + length name)
          (domain_request cmd rsv name hi lo)
          m
          (record s { req_buf = more; req_map = entries (insert_field "cmd" (num cmd) fs) })
unfolding parse_socks5_req_conn_info take_req_conn_info packet_length insert_prop
request_taken m s fs cmd rsv hi lo name more c e b = rw b (reached ∙ finished)
  where
    packet : List ℕ
    packet = domain_request cmd rsv name hi lo

    size : length packet ≡ 7 + length name
    size = omega (arith, length-append name (hi ∷ lo ∷ []))

    t : SocksState
    t = record s { req_buf = packet ++ more }

    reached : parse_socks5_req_conn_info m t ≡ take_req_conn_info (7 + length name) m t
    reached =
        rw
          (
            parse_socks5_req_conn_info,
            get-head 0x05 cmd rsv 0x03 (length name) (name ++ hi ∷ lo ∷ [] ++ more),
          )
          refl

    taken : get (7 + length name) true (packet ++ more) ≡ (some packet, more)
    taken =
        subst (λ n. get n true (packet ++ more) ≡ (some packet, more)) size
          (get-length_append packet more)

    finished :
        take_req_conn_info (7 + length name) m t
        ≡ finish_req_conn_info
            (7 + length name)
            packet
            m
            (record s { req_buf = more; req_map = entries (insert_field "cmd" (num cmd) fs) })
    finished = take_req_conn_info-command (7 + length name) m t fs packet more taken c e

port_at-domain :
    (cmd rsv hi lo : ℕ) (name : List ℕ)
    → lo < 256
    → port_at (7 + length name) (domain_request cmd rsv name hi lo) ≡ num (hi * 256 + lo)
port_at-domain cmd rsv hi lo name h =
    rw
      (
        first,
        second,
        get_or-append name (hi ∷ lo ∷ []) 0 0,
        get_or-append name (hi ∷ lo ∷ []) 1 0,
        join16_lem hi lo h,
      )
      refl
  where
    first : 7 + length name - 2 ≡ suc (suc (suc (suc (suc (length name + 0)))))
    first = omega arith

    second : 7 + length name - 1 ≡ suc (suc (suc (suc (suc (length name + 1)))))
    second = omega arith

-- Where the request has its map, a request for a known command that names a host, with more bytes
-- behind it, is read as what the RFC says when the name has at most 250 bytes: the command, the
-- name and the port are stored in the request's map, the packet leaves the buffer, and the machine
-- moves on.
pub parse_socks5_req_conn_info_reads :
    (m : Lsm Step) (s : SocksState) (fs : Fields) (cmd rsv hi lo : ℕ) (name more : List ℕ)
    → is_command cmd ≡ true
    → lo < 256
    → length name ≤ 250
    → s.req_map ≡ entries fs
    → s.req_buf ≡ domain_request cmd rsv name hi lo ++ more
    → parse_socks5_req_conn_info m s
      ≡ stepped next m (record s {
        req_buf = more;
        req_map = entries (
            insert_field "port" (num (hi * 256 + lo)) (
              insert_field "addr"
                (text name)
                (insert_field "addr_type" (num 3) (insert_field "cmd" (num cmd) fs))));
        req_updated = true;
      })
unfolding finish_req_conn_info address insert_prop
parse_socks5_req_conn_info_reads m s fs cmd rsv hi lo name more c l h e b =
    rw
      (
        request_taken m s fs cmd rsv hi lo name more c e b,
        slice-domain cmd rsv hi lo name h,
        port_at-domain cmd rsv hi lo name l,
      )
      refl

-- Where the request has its map, a request for a known command and a name of 251 to 255 bytes
-- panics: the byte `5+pkt[4]` wraps around, and the slice ends before it starts.
pub parse_socks5_req_conn_info_panics :
    (m : Lsm Step) (s : SocksState) (fs : Fields) (cmd rsv hi lo : ℕ) (name more : List ℕ)
    → is_command cmd ≡ true
    → 250 < length name
    → length name < 256
    → s.req_map ≡ entries fs
    → s.req_buf ≡ domain_request cmd rsv name hi lo ++ more
    → parse_socks5_req_conn_info m s ≡ panic
unfolding finish_req_conn_info address insert_prop
parse_socks5_req_conn_info_panics m s fs cmd rsv hi lo name more c h k e b =
    rw
      (request_taken m s fs cmd rsv hi lo name more c e b, slice-domain_long cmd rsv hi lo name h k)
      refl
