-- ===== src/Samples/Wireguard.antt =====
-- Tests of analyzer/udp/wireguard.go.
use open_gfw_for_frp_integra.Prelude.{
  take, replicate, ℕ, ◌≡◌, refl, true, false, List, [], ◌∷◌, map,
}
use open_gfw_for_frp_integra.Protocols.Wireguard.{
  WireGuardIndex, new_wire_guard_stream, match_receiver_index, parse_wire_guard_packet, feed,
}
use open_gfw_for_frp_integra.Protocols.Wireguard.Memory.{
  put_all, any_answers, match_receiver_index_recent,
}
use open_gfw_for_frp_integra.Protocols.Wireguard.Packets.{
  is_null, parse_wire_guard_packet-is_null, feed_all, feed_gives_up,
}

-- A handshake initiation with the sender index 7.
abbrev initiation : List ℕ
initiation = 1 ∷ 0 ∷ 0 ∷ 0 ∷ 7 ∷ 0 ∷ 0 ∷ 0 ∷ replicate 140 9

abbrev from_client : ℕ → WireGuardIndex
from_client n = record { sender_index = n; reverse = false }

abbrev six : List WireGuardIndex
six = map from_client (6 ∷ 5 ∷ 4 ∷ 3 ∷ 2 ∷ 1 ∷ [])

match_receiver_index_recent_example :
    match_receiver_index true 1 (put_all six) ≡ any_answers true 1 (take 5 six)
match_receiver_index_recent_example = match_receiver_index_recent true 1 six

-- The sixth latest index is in the ring, and is not found.
oldest_missed : match_receiver_index true 1 (put_all six) ≡ false
unfolding match_receiver_index put_all
oldest_missed = refl

parse_wire_guard_packet-is_null_example :
    is_null (parse_wire_guard_packet false initiation new_wire_guard_stream).1 ≡ false
parse_wire_guard_packet-is_null_example =
    parse_wire_guard_packet-is_null false initiation new_wire_guard_stream

feed_gives_up_example :
    (feed true
      (5 ∷ [])
      (feed_all ((false, []) ∷ (true, 5 ∷ []) ∷ (false, []) ∷ []) new_wire_guard_stream)).is_done
    ≡ true
feed_gives_up_example =
    feed_gives_up ((false, []) ∷ (true, 5 ∷ []) ∷ (false, []) ∷ []) true (5 ∷ [])
