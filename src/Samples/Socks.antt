-- ===== src/Samples/Socks.antt =====
-- Tests of analyzer/tcp/socks.go.
use open_gfw_for_frp_integra.Prelude.{
  replicate, Outcome, ok, panic, ◌>>=◌, ℕ, ◌≡◌, refl, Bool, true, false, List, [], ◌∷◌, ◌++◌, arith,
}
use open_gfw_for_frp_integra.Analyzer.{
  num, text, props, null, entries, end, field, insert_field, insert_prop,
}
use open_gfw_for_frp_integra.Utils.ByteBuffer.{get_byte}
use open_gfw_for_frp_integra.Utils.Lsm.{next, Lsm}
use open_gfw_for_frp_integra.Protocols.Socks.{
  socks5, Step, req_version, SocksState, stepped, parse_socks5_req_method, parse_socks5_req_auth,
  is_command, parse_socks5_req_conn_info, parse_socks5_resp_method, parse_socks5_resp_auth,
  parse_socks5_resp_conn_info,
}
use open_gfw_for_frp_integra.Protocols.Socks.Steps.{
  socks5_req_steps, parse_socks_req_version, parse_socks_resp_version, new_socks_stream, Fed, feed,
}
use open_gfw_for_frp_integra.Protocols.Socks.Domain.{
  domain_request, parse_socks5_req_conn_info_reads, parse_socks5_req_conn_info_panics,
}
use open_gfw_for_frp_integra.Protocols.Socks.Auth.{password_request, parse_socks5_req_auth_reads}

abbrev machine : Lsm Step
machine = record { steps = req_version ∷ socks5_req_steps; index = 3; cancelled = false }

abbrev waiting : List ℕ → SocksState
waiting bytes = record {
  req_buf = bytes;
  req_map = entries end;
  req_updated = false;
  resp_buf = [];
  resp_map = null;
  resp_updated = false;
  version = socks5;
  auth_req_method = 0;
  auth_username = [];
  auth_password = [];
  auth_resp_method = 0;
}

-- CONNECT to "a.b", port 443, and one byte more.
parse_socks5_req_conn_info_reads_example :
    parse_socks5_req_conn_info machine
      (waiting (domain_request 1 0 (97 ∷ 46 ∷ 98 ∷ []) 1 187 ++ (9 ∷ [])))
    ≡ stepped next machine (record (waiting (9 ∷ [])) {
      req_map = entries (
          field "cmd" (num 1) (
            field "addr_type"
              (num 3)
              (field "addr" (text (97 ∷ 46 ∷ 98 ∷ [])) (field "port" (num 443) end))));
      req_updated = true;
    })
unfolding is_command insert_field
parse_socks5_req_conn_info_reads_example =
    parse_socks5_req_conn_info_reads machine
      (waiting (domain_request 1 0 (97 ∷ 46 ∷ 98 ∷ []) 1 187 ++ (9 ∷ []))) end 1 0 1 187
      (97 ∷ 46 ∷ 98 ∷ []) (9 ∷ []) refl (omega arith) (omega arith) refl refl

parse_socks5_req_conn_info_panics_example :
    parse_socks5_req_conn_info machine (waiting (domain_request 1 0 (replicate 251 97) 1 187 ++ []))
    ≡ panic
unfolding is_command
parse_socks5_req_conn_info_panics_example =
    parse_socks5_req_conn_info_panics machine
      (waiting (domain_request 1 0 (replicate 251 97) 1 187 ++ [])) end 1 0 1 187 (replicate 251 97)
      [] refl (omega arith) (omega arith) refl refl

-- The user "ab" with the password "c", and one byte more.
parse_socks5_req_auth_reads_example :
    parse_socks5_req_auth machine
      (record (waiting (password_request (97 ∷ 98 ∷ []) (99 ∷ []) ++ (9 ∷ []))) {
        auth_req_method = 2;
      })
    ≡ stepped next machine (record (waiting (9 ∷ [])) {
      req_map = entries (
          field "auth"
            (props (
              entries (
                field "method" (num 2) (
                  field "username" (text (97 ∷ 98 ∷ [])) (field "password" (text (99 ∷ [])) end)))))
            end);
      auth_req_method = 2;
      auth_username = 97 ∷ 98 ∷ [];
      auth_password = 99 ∷ [];
      req_updated = true;
    })
unfolding insert_field
parse_socks5_req_auth_reads_example =
    parse_socks5_req_auth_reads machine
      (record (waiting (password_request (97 ∷ 98 ∷ []) (99 ∷ []) ++ (9 ∷ []))) {
        auth_req_method = 2;
      })
      end (97 ∷ 98 ∷ []) (99 ∷ []) (9 ∷ []) refl refl refl

-- A session without authentication: the greetings, the request to "a.b" and the answer to it.
abbrev session : Outcome Fed
session = feed false 0 (5 ∷ 1 ∷ 0 ∷ []) new_socks_stream >>= λ r.
    feed true 0 (5 ∷ 0 ∷ []) r.stream >>= λ r.
    feed false 0 (domain_request 1 0 (97 ∷ 46 ∷ 98 ∷ []) 1 187) r.stream >>= λ r.
    feed true 0 (5 ∷ 0 ∷ 0 ∷ 1 ∷ 10 ∷ 0 ∷ 0 ∷ 1 ∷ 4 ∷ 56 ∷ []) r.stream

abbrev is_finished : Outcome Fed → Bool
is_finished (ok r) = r.is_done
is_finished _ = false

session_ends : is_finished session ≡ true
unfolding feed new_socks_stream parse_socks_req_version get_byte parse_socks5_req_method
    parse_socks5_req_auth insert_prop parse_socks5_req_conn_info parse_socks_resp_version
    parse_socks5_resp_method parse_socks5_resp_auth parse_socks5_resp_conn_info
session_ends = refl
