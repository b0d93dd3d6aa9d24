-- ===== src/Samples/Tcp.antt =====
-- Tests of engine/tcp.go with an analyzer that counts bytes.
use open_gfw_for_frp_integra.Prelude.{
  length, ℕ, ◌+◌, ◌≡◌, refl, ◌⊎◌, true, false, none, some, [], ◌∷◌, arith,
}
use open_gfw_for_frp_integra.Analyzer.{num, entries, end, field, replace}
use open_gfw_for_frp_integra.Ruleset.{Action, maybe, block, accept, tcp, other_instance, Match}
use open_gfw_for_frp_integra.Engine.Tcp.{
  Segment, TcpStreams, TcpEntry, TcpStream, accept_packet, feed_active, reassembled_sg,
}
use open_gfw_for_frp_integra.Engine.Tcp.Verdicts.{IsFinal, reassembled_sg_decides}
use open_gfw_for_frp_integra.Engine.Tcp.Actions.{IsActedOn, reassembled_sg-IsActedOn}
use open_gfw_for_frp_integra.Engine.Tcp.Quota.{
  feed_until_done, feed_until_done_limit, is_done_within, is_done_within_limit,
}

abbrev counter : TcpStreams ℕ
counter = record {
  feed_stream = λ n seg. record {
    stream = n + length seg.bytes;
    update = some (record { type = replace; m = entries (field "n" (num n) end) });
    is_done = false;
  };
  close_stream = λ n limited. (n, none);
}

abbrev always : Action → Match
always a = λ info. record { action = a; mod_instance = other_instance }

abbrev new_stream : TcpStream ℕ
new_stream = record {
  info = record {
    id = 1;
    protocol = tcp;
    src_ip = [];
    dst_ip = [];
    src_port = 5000;
    dst_port = 80;
    properties = [];
  };
  virgin = true;
  active_entries = record { name = "count"; stream = 0; has_limit = true; quota = 5 } ∷ [];
  done_entries = [];
  last_verdict = accept;
  log = [];
}

abbrev segment : Segment
segment = record { rev = false; is_start = true; is_end = false; skip = 0; bytes = 1 ∷ 2 ∷ 3 ∷ [] }

reassembled_sg_decides_example :
    let (t, v) = reassembled_sg counter (always maybe) segment new_stream accept in
    ((v ≡ accept) ⊎ IsFinal v)
    × (t.virgin ≡ false)
    × (t.active_entries ≡ [] → IsFinal v × (accept_packet t accept ≡ (false, v)))
reassembled_sg_decides_example = reassembled_sg_decides counter (always maybe) segment new_stream

reassembled_sg-IsActedOn_example :
    let (t, updated) = feed_active counter segment new_stream in
    let (u, v) = reassembled_sg counter (always block) segment new_stream accept in
    IsActedOn counter (always block) t updated u v
reassembled_sg-IsActedOn_example =
    reassembled_sg-IsActedOn counter (always block) segment new_stream

abbrev limited : TcpEntry (ℕ × ℕ)
limited = record { name = "count"; stream = (0, 0); has_limit = true; quota = 5 }

feed_until_done_limit_example :
    (feed_until_done counter limited (segment ∷ segment ∷ segment ∷ [])).stream.1
      + (feed_until_done counter limited (segment ∷ segment ∷ segment ∷ [])).quota
    ≡ 5
feed_until_done_limit_example =
    feed_until_done_limit counter limited (segment ∷ segment ∷ segment ∷ []) refl

cut_at_limit : (feed_until_done counter limited (segment ∷ segment ∷ segment ∷ [])).stream.1 ≡ 5
unfolding feed_until_done
cut_at_limit = refl

is_done_within_limit_example :
    is_done_within counter
      (record { name = "count"; stream = 0; has_limit = true; quota = 5 })
      (segment ∷ segment ∷ [])
    ≡ true
is_done_within_limit_example =
    is_done_within_limit counter
      (record { name = "count"; stream = 0; has_limit = true; quota = 5 }) (segment ∷ segment ∷ [])
      refl (omega arith) (omega arith)
