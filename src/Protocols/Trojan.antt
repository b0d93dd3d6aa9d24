-- ===== src/Protocols/Trojan.antt =====
-- analyzer/tcp/trojan.go. The array `seq` is a list of four numbers; an index past it panics.
pub mod Tree
pub mod Bounds
pub mod Bursts
use open_gfw_for_frp_integra.Prelude.{
  leb, ◌==◌, if◌then◌else◌, length, get_elem?, get_or, set, Outcome, ok, panic, ◌>>=◌, ℕ, ◌+◌, Bool,
  true, false, not, ◌&&◌, Option, none, some, List, [], ◌∷◌, arith,
}
use open_gfw_for_frp_integra.Analyzer.{flag, nums, entries, end, field, replace, PropUpdate}
use open_gfw_for_frp_integra.Utils.ByteBuffer.{has_prefix}
use Tree.{is_trojan_seq}

abbrev pub ccs_pattern : List ℕ
ccs_pattern = 20 ∷ 3 ∷ 3 ∷ 0 ∷ 1 ∷ 1 ∷ []

pub record TrojanStream : Type 0 where
  pub first : Bool
  pub count : Bool
  pub rev : Bool
  pub seq : List ℕ
  pub seq_index : ℕ

-- Every field has Go's zero value.
unfoldable pub new_trojan_stream : TrojanStream
new_trojan_stream = record {
  first = false;
  count = false;
  rev = false;
  seq = 0 ∷ 0 ∷ 0 ∷ 0 ∷ [];
  seq_index = 0;
}

pub record Fed : Type 0 where
  pub stream : TrojanStream
  pub update : Option PropUpdate
  pub is_done : Bool

abbrev pub quiet : TrojanStream → Bool → Outcome Fed
quiet s done = ok (record { stream = s; update = none; is_done = done })

-- The test on the first packet: a TLS record from the client.
unfoldable pub is_tls_start : Bool → List ℕ → Bool
is_tls_start rev (a ∷ b ∷ c ∷ bytes) =
    not rev && leb 0x16 a && leb a 0x17 && (b == 0x03) && leb c 0x09
is_tls_start rev _ = false

-- `s.seq[s.seqIndex] += n`
unfoldable pub add_length : ℕ → TrojanStream → Outcome TrojanStream
add_length n s = elim (get_elem? s.seq s.seq_index) [
  | none ↦ panic
  | some k ↦ ok (record s { seq = set s.seq s.seq_index (k + n) })
]

abbrev pub lengths : List ℕ → ℕ × ℕ × ℕ × ℕ
lengths seq = (get_or seq 0 0, get_or seq 1 0, get_or seq 2 0, get_or seq 3 0)

-- The update of the fourth change of direction.
unfoldable pub verdict_update : List ℕ → PropUpdate
verdict_update seq = record {
  type = replace;
  m = entries (field "seq" (nums seq) (field "yes" (flag (is_trojan_seq (lengths seq))) end));
}

-- The branch for a change of direction.
unfoldable pub bump : Bool → ℕ → TrojanStream → Outcome Fed
unfolding add_length verdict_update
bump rev n s =
    let t = record s { seq_index = s.seq_index + 1 } in
    if t.seq_index == 4
    then ok (record { stream = t; update = some (verdict_update t.seq); is_done = true })
    else add_length n t >>= λ u. quiet (record u { rev = rev }) false

abbrev pub same : Bool → Bool → Bool
same true b = b
same false b = not b

unfoldable pub count_packet : Bool → ℕ → TrojanStream → Outcome Fed
unfolding bump add_length
count_packet rev n s =
    let more = add_length n s >>= λ t. quiet t false in
    if s.count then (if same rev s.rev then more else bump rev n s) else quiet s false

-- The start of counting at the client's Change Cipher Spec.
unfoldable pub start_count : Bool → List ℕ → TrojanStream → TrojanStream
start_count rev bytes s =
    if not rev && not s.count && has_prefix ccs_pattern bytes then record s { count = true } else s

unfoldable pub feed_data : Bool → List ℕ → TrojanStream → Outcome Fed
unfolding is_tls_start start_count count_packet
feed_data rev bytes s =
    let t = record s { first = false } in
    let go = count_packet rev (length bytes) (start_count rev bytes t) in
    if s.first && not (is_tls_start rev bytes) then quiet t true else go

unfoldable pub feed : Bool → ℕ → List ℕ → TrojanStream → Outcome Fed
unfolding feed_data
feed rev skip [] s = quiet s (not (skip == 0))
feed rev skip (b ∷ bytes) s = if skip == 0 then feed_data rev (b ∷ bytes) s else quiet s true
