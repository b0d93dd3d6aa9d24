-- ===== src/Samples/Ssh.antt =====
-- Tests of analyzer/tcp/ssh.go.
use open_gfw_for_frp_integra.Prelude.{ok, ◌≡◌, refl, true, some, [], ◌∷◌, ◌++◌, arith}
use open_gfw_for_frp_integra.Analyzer.{null}
use open_gfw_for_frp_integra.Utils.ByteBuffer.Lines.{crlf}
use open_gfw_for_frp_integra.Utils.Lsm.{cancel}
use open_gfw_for_frp_integra.Protocols.Duplex.{Fed, new_duplex}
use open_gfw_for_frp_integra.Protocols.Ssh.{SshStep, parse_line, new_ssh_stream, feed_ssh}
use open_gfw_for_frp_integra.Protocols.Ssh.Exchange.{
  Exchange, print_exchange, IsExchange, IsAnswered, feed_ssh-print_exchange,
}

-- "SSH-2.0-X c"
abbrev exchange : Exchange
exchange = record { protocol = 50 ∷ 46 ∷ 48 ∷ []; software = 88 ∷ []; comments = (99 ∷ []) ∷ [] }

exchange-IsExchange : IsExchange exchange
exchange-IsExchange = (
  ((omega arith, omega arith), ((omega arith, omega arith), ((omega arith, omega arith), tt))),
  (omega arith, (omega arith, (omega arith, tt))),
  ((omega arith, omega arith), tt),
  ((omega arith, ((omega arith, omega arith), tt)), tt),
)

feed_ssh-print_exchange_example :
    (f : Fed SshStep) × (feed_ssh true 0
        (print_exchange exchange ++ (crlf ++ 1 ∷ []))
        new_ssh_stream
      ≡ ok f)
    × IsAnswered true exchange exchange.comments f
unfolding new_ssh_stream new_duplex
feed_ssh-print_exchange_example =
    feed_ssh-print_exchange true new_ssh_stream exchange (1 ∷ []) exchange-IsExchange (refl, refl)

-- "SSH-2-X a b": comments of two words are refused.
two_comments :
    parse_line (some (83 ∷ 83 ∷ 72 ∷ 45 ∷ 50 ∷ 45 ∷ 88 ∷ 32 ∷ 97 ∷ 32 ∷ 98 ∷ 13 ∷ 10 ∷ []))
    ≡ (cancel, null)
unfolding parse_line
two_comments = refl
