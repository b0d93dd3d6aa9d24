-- ===== src/Protocols/Dns/Segments.antt =====
-- DNS over TCP: `Feed` returns, and reads all the messages of a segment.
use open_gfw_for_frp_integra.Prelude.{
  length, get_elem?, length-append, get_elem?-some, ok, Gives, Gives-ok, ℕ, zero, suc, ◌+◌, ◌≤◌,
  ◌<◌, ◌≡◌, refl, sym, ap, subst, ◌⊎◌, inl, inr, Bool, Option, none, some, List, arith,
}
use open_gfw_for_frp_integra.Analyzer.{Fields}
use open_gfw_for_frp_integra.Utils.ByteBuffer.{ByteBuffer}
use open_gfw_for_frp_integra.Utils.ByteBuffer.Laws.{get_split}
use open_gfw_for_frp_integra.Utils.Lsm.{LsmAction, Lsm}
use open_gfw_for_frp_integra.Utils.Lsm.Total.{Follows}
use open_gfw_for_frp_integra.Protocols.Duplex.{Side, Fed, new_duplex, lift, feed}
use open_gfw_for_frp_integra.Protocols.Duplex.Total.{IsSteady, IsLive, feed-IsLive}
use open_gfw_for_frp_integra.Protocols.Dns.{
  Decoder, DnsStep, get_req_message_length, get_req_message, get_resp_message_length,
  get_resp_message, DnsTcpStream, get_message_length, parse_dns_message, accept, get_message, exec,
  req_steps, resp_steps, new_dns_tcp_stream, dns_tcp, feed_tcp,
}

abbrev Places : List DnsStep → Type 0
Places steps = (steps ≡ req_steps) ⊎ (steps ≡ resp_steps)

abbrev Orderly : Lsm DnsStep → Side → Type 0
Orderly m s = Places m.steps × (m.index ≤ 2)

-- A message takes a byte of its length at least, so every round comes nearer to the end.
abbrev to_read : Lsm DnsStep → Side → ℕ
to_read m s = length s.buf + m.index

abbrev IsMessage : Option DnsStep → Type 0
IsMessage (some get_req_message) = Unit
IsMessage (some get_resp_message) = Unit
IsMessage (some get_req_message_length) = ⊥
IsMessage (some get_resp_message_length) = ⊥
IsMessage none = ⊥

message_second :
    (steps : List DnsStep) (i : ℕ) → Places steps → IsMessage (get_elem? steps i) → 0 < i
message_second steps zero (inl e) h = absurd (subst (λ l. IsMessage (get_elem? l 0)) e h)
message_second steps zero (inr e) h = absurd (subst (λ l. IsMessage (get_elem? l 0)) e h)
message_second steps (suc i) p h = omega arith

two_steps : (steps : List DnsStep) → Places steps → length steps ≡ 2
two_steps steps (inl e) = ap length e
two_steps steps (inr e) = ap length e

module _ (decode : Decoder) where
  abbrev Fine : Lsm DnsStep → Side → LsmAction × Side → Type 0
  Fine m s r = Follows (lift (dns_tcp decode)) Orderly to_read (to_read m s) r.0 m r.1

  get_message_length-Fine :
      (m : Lsm DnsStep) (s : Side) → Orderly m s → m.index < 2 → Fine m s (get_message_length s)
  unfolding get_message_length
  get_message_length-Fine m s g l = elim (get_split 2 s.buf) [
    | inl (bytes, rest, e, cut, two) ↦
        rw e ((g.0, omega arith), omega (arith, ap length cut, length-append bytes rest))
    | inr (e, short) ↦ rw e g
  ]

  get_message-Fine :
      (m : Lsm DnsStep) (s : Side) → Orderly m s → 0 < m.index → Fine m s (get_message decode s)
  unfolding get_message
  get_message-Fine m s g l = elim (get_split s.msg_len s.buf) [
    | inl (bytes, rest, e, cut, n) ↦ rw e (
        accepted (parse_dns_message decode bytes) rest
          (omega (arith, ap length cut, length-append bytes rest)))
    | inr (e, short) ↦ rw e g
  ]
    where
      accepted :
          (f : Option Fields) (rest : ByteBuffer)
          → length rest ≤ length s.buf
          → Fine m s (accept decode f (record s { buf = rest }))
      accepted none rest k = g
      accepted (some f) rest k = ((g.0, omega arith), omega arith)

  exec-Fine :
      (t : DnsStep) (m : Lsm DnsStep) (s : Side)
      → get_elem? m.steps m.index ≡ some t
      → Orderly m s
      → Gives (Fine m s) (exec decode t s)
  unfolding exec
  exec-Fine get_req_message_length m s e g =
      get_message_length-Fine m s g
        (omega (arith, get_elem?-some m.steps m.index e, two_steps m.steps g.0))
  exec-Fine get_resp_message_length m s e g =
      get_message_length-Fine m s g
        (omega (arith, get_elem?-some m.steps m.index e, two_steps m.steps g.0))
  exec-Fine get_req_message m s e g =
      get_message-Fine m s g (message_second m.steps m.index g.0 (subst IsMessage (sym e) tt))
  exec-Fine get_resp_message m s e g =
      get_message-Fine m s g (message_second m.steps m.index g.0 (subst IsMessage (sym e) tt))

  dns_tcp-IsSteady : IsSteady (dns_tcp decode) Orderly to_read
  unfolding dns_tcp
  dns_tcp-IsSteady = record {
    receives = λ m s bytes g. g;
    reports = λ m s g. g;
    bounded = λ m s g. omega (arith, g.1);
    returns = λ t m s e g. exec-Fine t m s e g;
  }

  -- The streams that `feed_tcp` leaves.
  pub IsDnsStream : DnsTcpStream → Type 0
  IsDnsStream o = IsLive dns_tcp-IsSteady o

  pub new_dns_tcp_stream-IsDnsStream : IsDnsStream new_dns_tcp_stream
  unfolding IsDnsStream new_dns_tcp_stream new_duplex
  new_dns_tcp_stream-IsDnsStream = ((inl refl, omega arith), (inr refl, omega arith))

  -- On every segment of either direction, whatever its bytes and its decoder, `Feed` of such a DNS
  -- stream over TCP returns, though its machine starts anew after each message. It leaves such a
  -- stream again.
  pub feed_tcp-IsDnsStream :
      (rev : Bool) (skip : ℕ) (bytes : List ℕ) (o : DnsTcpStream)
      → IsDnsStream o
      → (f : Fed DnsStep) × (feed_tcp decode rev skip bytes o ≡ ok f) × IsDnsStream f.stream
  unfolding feed_tcp IsDnsStream
  feed_tcp-IsDnsStream rev skip bytes o l =
      Gives-ok (λ f. IsDnsStream f.stream) (feed (dns_tcp decode) rev skip bytes o)
        (feed-IsLive dns_tcp-IsSteady rev skip bytes o l)
