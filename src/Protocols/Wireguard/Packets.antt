-- ===== src/Protocols/Wireguard/Packets.antt =====
-- Which packets the WireGuard analyzer takes for WireGuard, and when it gives up.
use open_gfw_for_frp_integra.Prelude.{
  ltb, leb, ◌==◌, if◌then◌else◌, Bool-cases, length, ℕ, ◌+◌, ◌%◌, max, String, ◌≡◌, refl, ap, ◌∙◌,
  inl, inr, Bool, true, false, not, ◌&&◌, none, some, List, [], ◌∷◌, ◌++◌, arith,
}
use open_gfw_for_frp_integra.Analyzer.{PropMap, null, entries}
use open_gfw_for_frp_integra.Protocols.Wireguard.{
  WireGuardStream, new_wire_guard_stream, put_sender_index, Parsed, parse_handshake_initiation,
  parse_handshake_response, parse_packet_data, parse_packet_cookie_reply, wrap_message,
  parse_by_type, parse_wire_guard_packet, conclude, feed,
}

-- The shape of a WireGuard message: three zero bytes behind the type, and the size of the type.
abbrev pub size_fits : ℕ → ℕ → Bool
size_fits type n =
    if type == 1
    then n == 148
    else if type == 2
    then n == 92
    else if type == 3
    then n == 64
    else if type == 4
    then leb 32 n && n % 16 == 0
    else false

abbrev pub is_wire_guard : List ℕ → Bool
is_wire_guard (type ∷ a ∷ b ∷ c ∷ bytes) =
    (a == 0 && b == 0 && c == 0) && size_fits type (length bytes + 4)
is_wire_guard _ = false

abbrev pub is_null : PropMap → Bool
is_null null = true
is_null (entries m) = false

wrap_message-is_null :
    (type : ℕ) (key : String) (r : Parsed)
    → is_null (wrap_message type key r).1 ≡ (elim (r.1) [ none ↦ true | some m ↦ false ])
unfolding wrap_message
wrap_message-is_null type key (s, none) = refl
wrap_message-is_null type key (s, some m) = refl

parse_by_type-is_null :
    (type : ℕ) (rev : Bool) (bytes : List ℕ) (s : WireGuardStream)
    → is_null (parse_by_type type rev bytes s).1 ≡ not (size_fits type (length bytes))
unfolding parse_by_type
parse_by_type-is_null type rev bytes s = ground arith

zeros : (b c d : ℕ) → (max (max b c) d == 0) ≡ (b == 0 && c == 0 && d == 0)
zeros b c d = ground arith

-- A packet is parsed exactly if it has the shape of a WireGuard message.
pub parse_wire_guard_packet-is_null :
    (rev : Bool) (bytes : List ℕ) (s : WireGuardStream)
    → is_null (parse_wire_guard_packet rev bytes s).1 ≡ not (is_wire_guard bytes)
unfolding parse_wire_guard_packet
parse_wire_guard_packet-is_null rev [] s = refl
parse_wire_guard_packet-is_null rev (a ∷ []) s = refl
parse_wire_guard_packet-is_null rev (a ∷ b ∷ []) s = refl
parse_wire_guard_packet-is_null rev (a ∷ b ∷ c ∷ []) s = refl
parse_wire_guard_packet-is_null rev (a ∷ b ∷ c ∷ d ∷ bytes) s =
    rw (short, zeros b c d)
      (elim (Bool-cases (b == 0 && c == 0 && d == 0)) [
        | inl e ↦ rw e (
            parse_by_type-is_null a rev (a ∷ b ∷ c ∷ d ∷ bytes) s
            ∙ ap (λ n. not (size_fits a n)) (omega arith))
        | inr e ↦ rw e
      ])
  where
    short : ltb (length (a ∷ b ∷ c ∷ d ∷ bytes)) 4 ≡ false
    short = ground arith

conclude_null :
    (s : WireGuardStream) (m : PropMap)
    → is_null m ≡ true
    → ((conclude s m).stream.invalid_count ≡ s.invalid_count + 1)
      × ((conclude s m).is_done ≡ leb 4 (s.invalid_count + 1))
unfolding conclude
conclude_null s null h = (refl, refl)
conclude_null s (entries m) h = cc

conclude_entries :
    (s : WireGuardStream) (m : PropMap)
    → is_null m ≡ false
    → ((conclude s m).stream.invalid_count ≡ 0) × ((conclude s m).is_done ≡ false)
unfolding conclude
conclude_entries s null h = cc
conclude_entries s (entries m) h = (refl, refl)

parse_keeps_count :
    (rev : Bool) (bytes : List ℕ) (s : WireGuardStream)
    → (parse_wire_guard_packet rev bytes s).0.invalid_count ≡ s.invalid_count
unfolding parse_wire_guard_packet parse_by_type wrap_message parse_handshake_initiation
    parse_handshake_response parse_packet_data parse_packet_cookie_reply put_sender_index
parse_keeps_count rev bytes s = ground arith

-- The packets of a stream, fed in turn.
unfoldable pub feed_all : List (Bool × List ℕ) → WireGuardStream → WireGuardStream
unfolding feed
feed_all [] s = s
feed_all ((rev, bytes) ∷ ps) s = feed_all ps (feed rev bytes s).stream

-- How many packets at the end of the list, with those before the list, are not WireGuard.
abbrev pub trailing : List (Bool × List ℕ) → ℕ → ℕ
trailing [] n = n
trailing ((rev, bytes) ∷ ps) n = trailing ps (if is_wire_guard bytes then 0 else n + 1)

feed_count :
    (rev : Bool) (bytes : List ℕ) (s : WireGuardStream)
    → ((feed rev bytes s).stream.invalid_count
        ≡ (if is_wire_guard bytes then 0 else s.invalid_count + 1))
      × ((feed rev bytes s).is_done
          ≡ leb 4 (if is_wire_guard bytes then 0 else s.invalid_count + 1))
unfolding feed
feed_count rev bytes s =
    let (t, m) = parse_wire_guard_packet rev bytes s in
    ground (
      arith,
      parse_wire_guard_packet-is_null rev bytes s,
      parse_keeps_count rev bytes s,
      conclude_null t m,
      conclude_entries t m,
    )

feed_all-count :
    (ps : List (Bool × List ℕ)) (s : WireGuardStream)
    → (feed_all ps s).invalid_count ≡ trailing ps s.invalid_count
unfolding feed_all
feed_all-count [] s = refl
feed_all-count ((rev, bytes) ∷ ps) s =
    feed_all-count ps (feed rev bytes s).stream ∙ ap (trailing ps) (feed_count rev bytes s).0

trailing-append :
    (ps : List (Bool × List ℕ)) (rev : Bool) (bytes : List ℕ) (n : ℕ)
    → trailing (ps ++ ((rev, bytes) ∷ [])) n
      ≡ (if is_wire_guard bytes then 0 else trailing ps n + 1)
trailing-append [] rev bytes n = refl
trailing-append ((r, b) ∷ ps) rev bytes n = trailing-append ps rev bytes _

-- After any packets the analyzer is done with a further one exactly if that is the fourth or later
-- of a run of packets that do not have the shape of a WireGuard message.
pub feed_gives_up :
    (ps : List (Bool × List ℕ)) (rev : Bool) (bytes : List ℕ)
    → (feed rev bytes (feed_all ps new_wire_guard_stream)).is_done
      ≡ leb 4 (trailing (ps ++ ((rev, bytes) ∷ [])) 0)
unfolding new_wire_guard_stream
feed_gives_up ps rev bytes =
    (feed_count rev bytes (feed_all ps new_wire_guard_stream)).1
    ∙ rw (feed_all-count ps new_wire_guard_stream, trailing-append ps rev bytes 0)
