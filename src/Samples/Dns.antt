-- ===== src/Samples/Dns.antt =====
-- Tests of analyzer/udp/dns.go.
use open_gfw_for_frp_integra.Prelude.{
  leb, All, ok, ◌≡◌, refl, true, false, none, some, [], ◌∷◌, ◌++◌,
}
use open_gfw_for_frp_integra.Analyzer.{null, replace}
use open_gfw_for_frp_integra.Protocols.Duplex.{Fed, new_duplex}
use open_gfw_for_frp_integra.Protocols.Dns.{
  Decoder, DnsStep, feed_udp, new_dns_tcp_stream, feed_tcp,
}
use open_gfw_for_frp_integra.Protocols.Dns.Messages.{trailing, feed_all, feed_udp_gives_up}
use open_gfw_for_frp_integra.Protocols.Dns.Segments.{
  IsDnsStream, new_dns_tcp_stream-IsDnsStream, feed_tcp-IsDnsStream,
}
use open_gfw_for_frp_integra.Protocols.Dns.Frames.{
  frames, IsMessage, last_map, IsIdle, feed_tcp-frames,
}

-- A decoder that takes messages of one byte, as the identifier of a query.
abbrev tiny : Decoder
tiny (x ∷ []) = some (record {
  id = x;
  qr = false;
  op_code = 0;
  aa = false;
  tc = false;
  rd = true;
  ra = false;
  z = 0;
  response_code = 0;
  questions = [];
  answers = [];
  authorities = [];
  additionals = [];
})
tiny _ = none

feed_udp_gives_up_example :
    (feed_udp tiny [] (feed_all tiny 0 ((1 ∷ []) ∷ [] ∷ [] ∷ [] ∷ []))).is_done
    ≡ leb 4 (trailing tiny 0 (((1 ∷ []) ∷ [] ∷ [] ∷ [] ∷ []) ++ [] ∷ []))
feed_udp_gives_up_example = feed_udp_gives_up tiny ((1 ∷ []) ∷ [] ∷ [] ∷ [] ∷ []) []

abbrev two : All (IsMessage tiny) ((1 ∷ []) ∷ (2 ∷ []) ∷ [])
two = ((_, refl), ((_, refl), tt))

feed_tcp-frames_example :
    (f : Fed DnsStep) × (feed_tcp tiny true 0 (frames ((1 ∷ []) ∷ (2 ∷ []) ∷ [])) new_dns_tcp_stream
      ≡ ok f)
    × (f.update
        ≡ some (record { type = replace; m = last_map tiny null ((1 ∷ []) ∷ (2 ∷ []) ∷ []) two }))
    × (f.is_done ≡ false)
    × IsIdle tiny true f.stream
unfolding new_dns_tcp_stream new_duplex
feed_tcp-frames_example =
    feed_tcp-frames tiny true new_dns_tcp_stream (1 ∷ []) ((2 ∷ []) ∷ []) two (refl, refl)

feed_tcp-IsDnsStream_example :
    (f : Fed DnsStep) × (feed_tcp tiny false 0 (0 ∷ 0 ∷ 7 ∷ []) new_dns_tcp_stream ≡ ok f)
    × IsDnsStream tiny f.stream
feed_tcp-IsDnsStream_example =
    feed_tcp-IsDnsStream tiny false 0 (0 ∷ 0 ∷ 7 ∷ []) new_dns_tcp_stream
      (new_dns_tcp_stream-IsDnsStream tiny)
