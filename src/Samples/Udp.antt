-- ===== src/Samples/Udp.antt =====
-- Tests of engine/udp.go with an analyzer that counts packets.
use open_gfw_for_frp_integra.Prelude.{leb, ℕ, ◌+◌, ◌≡◌, refl, ◌≢◌, true, false, none, some, [], ◌∷◌}
use open_gfw_for_frp_integra.Analyzer.{num, entries, end, field, replace, get_prop, insert}
use open_gfw_for_frp_integra.Ruleset.{
  Action, maybe, block, accept, drop_stream, udp, other_instance, Match,
}
use open_gfw_for_frp_integra.Engine.Udp.{UdpStreams, UdpStream, feed_active, feed}
use open_gfw_for_frp_integra.Engine.Udp.Verdicts.{new_context, feed_decides}
use open_gfw_for_frp_integra.Engine.Udp.Entries.Moves.{IsMoved, feed-IsMoved}
use open_gfw_for_frp_integra.Engine.Udp.Offload.{handle_packets, verdict_repeats, final_action_ends}

abbrev counter : UdpStreams ℕ
counter = record {
  feed_stream = λ n rev payload. record {
    stream = n + 1;
    update = some (record { type = replace; m = entries (field "n" (num (n + 1)) end) });
    is_done = leb 2 (n + 1);
  };
  close_stream = λ n limited. (n, none);
}

-- Blocks a stream as soon as the counter has told anything.
abbrev block_counted : Match
block_counted = λ info. record {
  action = elim (get_prop info.properties "count" ("n" ∷ [])) as (λ o. Action) [
    | none ↦ maybe
    | some v ↦ block
  ];
  mod_instance = other_instance;
}

abbrev always_maybe : Match
always_maybe = λ info. record { action = maybe; mod_instance = other_instance }

abbrev new_stream : UdpStream ℕ
new_stream = record {
  info = record {
    id = 1;
    protocol = udp;
    src_ip = [];
    dst_ip = [];
    src_port = 5000;
    dst_port = 53;
    properties = [];
  };
  virgin = true;
  active_entries = record { name = "count"; stream = 0; has_limit = false; quota = 0 } ∷ [];
  done_entries = [];
  last_verdict = accept;
  log = [];
}

abbrev almost_done : UdpStream ℕ
almost_done = record new_stream {
  virgin = false;
  active_entries = record { name = "count"; stream = 1; has_limit = false; quota = 0 } ∷ [];
}

blocked :
    (handle_packets counter block_counted ((false, 7 ∷ []) ∷ (true, []) ∷ []) new_stream).1
    ≡ drop_stream ∷ drop_stream ∷ []
unfolding handle_packets get_prop insert
blocked = refl

final_action_ends_example :
    let (t, uc) = feed counter block_counted false (7 ∷ []) new_stream new_context in
    (t.active_entries ≡ [])
    × (uc.verdict ≡ drop_stream)
    × (handle_packets counter block_counted ((true, []) ∷ []) t ≡ (t, drop_stream ∷ []))
unfolding feed_active get_prop insert
final_action_ends_example =
    final_action_ends counter block_counted false (7 ∷ []) ((true, []) ∷ []) new_stream drop_stream
      refl refl

verdict_repeats_example :
    let (t, uc) = feed counter always_maybe true [] almost_done new_context in
    (handle_packets counter always_maybe ((true, []) ∷ []) t ≡ (t, uc.verdict ∷ []))
    × (uc.verdict ≢ accept)
unfolding feed
verdict_repeats_example =
    verdict_repeats counter always_maybe true [] ((true, []) ∷ []) almost_done refl

feed_decides_example :
    let (t, uc) = feed counter always_maybe true [] almost_done new_context in
    (t.virgin ≡ false)
    × (t.active_entries ≡ [] → (uc.verdict ≢ accept) × (t.last_verdict ≡ uc.verdict))
feed_decides_example = feed_decides counter always_maybe true [] almost_done new_context refl

feed-IsMoved_example :
    IsMoved counter true [] almost_done (feed counter always_maybe true [] almost_done new_context)
feed-IsMoved_example = feed-IsMoved counter true [] always_maybe almost_done new_context
