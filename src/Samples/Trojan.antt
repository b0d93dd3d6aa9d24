-- ===== src/Samples/Trojan.antt =====
-- Tests of analyzer/tcp/trojan.go.
use open_gfw_for_frp_integra.Prelude.{◌≤◌, ◌≡◌, refl, ◌⊎◌, true, false, [], ◌∷◌, arith}
use open_gfw_for_frp_integra.Utils.ByteBuffer.{has_prefix}
use open_gfw_for_frp_integra.Protocols.Trojan.{new_trojan_stream, quiet, feed}
use open_gfw_for_frp_integra.Protocols.Trojan.Tree.{
  tree_low, tree_mid, tree_high, tree_top, is_trojan_seq,
}
use open_gfw_for_frp_integra.Protocols.Trojan.Bursts.{
  Bursts, counting, Counts, feed-Counts, feed_starts,
}
use open_gfw_for_frp_integra.Protocols.Trojan.Bounds.{is_trojan_seq_region}

abbrev two_bursts : Bursts
two_bursts = record { latest = 1200; earlier = 700 ∷ []; direction = true }

feed-Counts_example : Counts two_bursts true 2 (feed true 0 (1 ∷ 2 ∷ []) (counting two_bursts))
feed-Counts_example = feed-Counts true 1 (2 ∷ []) two_bursts (omega arith)

-- The beginning of a TLS client's hello does not start the count.
feed_starts_example :
    feed false 0 (22 ∷ 3 ∷ 1 ∷ []) new_trojan_stream ≡ quiet new_trojan_stream false
unfolding has_prefix
feed_starts_example = feed_starts false 22 (3 ∷ 1 ∷ [])

is_trojan_seq_region_example :
    ((100 ≤ 157) × (157 ≤ 300) × (300 ≤ 892) × (41 ≤ 200) × (200 ≤ 1346))
    ⊎ ((158 ≤ 100) × (100 ≤ 782) × (186 ≤ 300))
    ⊎ ((2432 ≤ 100) × (100 ≤ 6232) × (86 ≤ 200))
    ⊎ ((6233 ≤ 100) × (100 ≤ 13314))
unfolding is_trojan_seq tree_low tree_mid tree_high tree_top
is_trojan_seq_region_example = is_trojan_seq_region 300 100 200 100 refl
