-- ===== src/Protocols/Socks/Auth.antt =====
-- analyzer/tcp/socks.go, `parseSocks5ReqAuth`: a user name and a password.
use open_gfw_for_frp_integra.Prelude.{
  length, get_or, drop, length-append, take-length_append, ℕ, suc, ◌+◌, ◌≡◌, refl, sym, ap, ◌∙◌,
  subst, true, false, some, List, [], ◌∷◌, ◌++◌, append_assoc, arith,
}
use open_gfw_for_frp_integra.Analyzer.{
  num, text, props, entries, Fields, end, field, insert_field, insert_prop,
}
use open_gfw_for_frp_integra.Utils.Lsm.{next, Lsm}
use open_gfw_for_frp_integra.Utils.ByteBuffer.{get}
use open_gfw_for_frp_integra.Utils.ByteBuffer.Laws.{get-length_append}
use open_gfw_for_frp_integra.Protocols.Socks.{
  Step, SocksState, stepped, finish_password, take_password, parse_password, parse_socks5_req_auth,
}

-- RFC 1929, section 2.
abbrev pub password_request : List ℕ → List ℕ → List ℕ
password_request user password = 0x01 ∷ length user ∷ (user ++ length password ∷ password)

-- What a `get` that leaves the buffer returns is what one that consumes it returns.
get_peek :
    (n : ℕ) (b rest bytes : List ℕ)
    → get n true b ≡ (some bytes, rest)
    → (get n false b).0 ≡ some bytes
unfolding get
get_peek n b rest bytes h = ground arith

-- The bytes of a successful `get` from a front of that length.
get_front :
    (n : ℕ) (front back : List ℕ)
    → length front ≡ n
    → get n true (front ++ back) ≡ (some front, back)
get_front n front back h =
    subst (λ k. get k true (front ++ back) ≡ (some front, back)) h (get-length_append front back)

at-append : (xs ys : List ℕ) (y : ℕ) → get_or (xs ++ y ∷ ys) (length xs) 0 ≡ y
at-append [] ys y = refl
at-append (x ∷ xs) ys y = at-append xs ys y

drop-suc_append : (xs ys : List ℕ) (y : ℕ) → drop (suc (length xs)) (xs ++ y ∷ ys) ≡ ys
drop-suc_append [] ys y = refl
drop-suc_append (x ∷ xs) ys y = drop-suc_append xs ys y

finish_password-request :
    (u p more : List ℕ) (m : Lsm Step) (s : SocksState) (fs : Fields)
    → s.req_map ≡ entries fs
    → finish_password (length u) (password_request u p) more m s
      ≡ stepped next m (record s {
        req_buf = more;
        req_map = entries (
            insert_field "auth"
              (props (
                entries (
                  field "method"
                    (num s.auth_req_method)
                    (field "username" (text u) (field "password" (text p) end)))))
              fs);
        auth_username = u;
        auth_password = p;
        req_updated = true;
      })
unfolding finish_password insert_prop
finish_password-request u p more m s fs e =
    rw (e, three, take-length_append u (length p ∷ p), drop-suc_append u p (length p)) refl
  where
    three : length u + 3 ≡ suc (suc (suc (length u)))
    three = omega arith

-- Once the whole message has arrived, its end is read.
take_password-arrived :
    (i j : ℕ) (m : Lsm Step) (s : SocksState) (packet more : List ℕ)
    → get (i + j + 3) true s.req_buf ≡ (some packet, more)
    → take_password i j m s ≡ finish_password i packet more m s
unfolding take_password
take_password-arrived i j m s packet more h =
    rw (take_password, h) (ap (λ b. finish_password i packet b m s) (ap (λ r. r.1) h))

-- Where the client chose the password method and the request has its map, a message with a user
-- name and a password is read back, with more bytes behind it: both are stored in the request's
-- map, the message leaves the buffer, and the machine moves on.
pub parse_socks5_req_auth_reads :
    (m : Lsm Step) (s : SocksState) (fs : Fields) (u p more : List ℕ)
    → s.auth_req_method ≡ 2
    → s.req_map ≡ entries fs
    → s.req_buf ≡ password_request u p ++ more
    → parse_socks5_req_auth m s
      ≡ stepped next m (record s {
        req_buf = more;
        req_map = entries (
            insert_field "auth"
              (props (
                entries (
                  field "method"
                    (num 2)
                    (field "username" (text u) (field "password" (text p) end)))))
              fs);
        auth_username = u;
        auth_password = p;
        req_updated = true;
      })
unfolding parse_socks5_req_auth
parse_socks5_req_auth_reads m s fs u p more a e b =
    rw (a, b) (started ∙ lengths_known ∙ taken ∙ finish_password-request u p more m t fs e)
  where
    packet : List ℕ
    packet = password_request u p

    t : SocksState
    t = record s { req_buf = packet ++ more; auth_req_method = 2 }

    prefix : List ℕ
    prefix = 0x01 ∷ length u ∷ (u ++ length p ∷ [])

    started : parse_socks5_req_auth m t ≡ parse_password m t
    started = refl

    head : (get 2 false (packet ++ more)).0 ≡ some (0x01 ∷ length u ∷ [])
    head =
        get_peek 2 (packet ++ more) _ _
          (get_front 2 (0x01 ∷ length u ∷ []) ((u ++ length p ∷ p) ++ more) refl)

    rearranged : packet ++ more ≡ prefix ++ (p ++ more)
    rearranged =
        ap (λ l. 0x01 ∷ length u ∷ l)
          (append_assoc u (length p ∷ p) more ∙ sym (append_assoc u (length p ∷ []) (p ++ more)))

    middle : (get (length u + 3) false (packet ++ more)).0 ≡ some prefix
    middle =
        subst (λ l. (get (length u + 3) false l).0 ≡ some prefix) (sym rearranged)
          (get_peek _ _ _ _ (
            get_front (length u + 3) prefix (p ++ more)
              (omega (arith, length-append u (length p ∷ [])))))

    two : length u + 2 ≡ suc (suc (length u))
    two = omega arith

    lengths_known : parse_password m t ≡ take_password (length u) (length p) m t
    lengths_known = rw (parse_password, head, middle, two, at-append u [] (length p)) refl

    whole : get (length u + length p + 3) true (packet ++ more) ≡ (some packet, more)
    whole = get_front _ packet more (omega (arith, length-append u (length p ∷ p)))

    taken : take_password (length u) (length p) m t ≡ finish_password (length u) packet more m t
    taken = take_password-arrived (length u) (length p) m t packet more whole
