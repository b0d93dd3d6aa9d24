-- ===== src/Protocols/Trojan/Bursts.antt =====
-- The lengths that the Trojan analyzer counts: those of the bursts of a stream, where a burst is a
-- maximal run of packets in one direction.
use open_gfw_for_frp_integra.Prelude.{
  ltb, if◌then◌else◌, length, Outcome, ok, panic, stuck, ℕ, ◌+◌, ◌<◌, ◌≡◌, refl, Bool, true, false,
  not, ◌&&◌, none, some, List, [], ◌∷◌, arith,
}
use open_gfw_for_frp_integra.Analyzer.{flag, nums, entries, end, field, replace}
use open_gfw_for_frp_integra.Utils.ByteBuffer.{has_prefix}
use open_gfw_for_frp_integra.Protocols.Trojan.Tree.{is_trojan_seq}
use open_gfw_for_frp_integra.Protocols.Trojan.{
  ccs_pattern, TrojanStream, new_trojan_stream, Fed, quiet, lengths, verdict_update, same,
  count_packet, start_count, feed_data, feed,
}

-- The bursts so far, the latest first, and the direction of the latest.
pub record Bursts : Type 0 where
  pub latest : ℕ
  pub earlier : List ℕ
  pub direction : Bool

-- One more packet: the latest burst goes on, or a new one begins.
abbrev pub extend : Bool → ℕ → Bursts → Bursts
extend rev n b =
    if same rev b.direction
    then record b { latest = b.latest + n }
    else record { latest = n; earlier = b.latest ∷ b.earlier; direction = rev }

-- The array that holds the bursts in the order of time, with zeros behind.
abbrev pub array : List ℕ → ℕ → List ℕ
array [] a = a ∷ 0 ∷ 0 ∷ 0 ∷ []
array (b ∷ []) a = b ∷ a ∷ 0 ∷ 0 ∷ []
array (c ∷ b ∷ []) a = b ∷ c ∷ a ∷ 0 ∷ []
array (d ∷ c ∷ b ∷ _) a = b ∷ c ∷ d ∷ a ∷ []

-- The stream while it counts.
abbrev pub counting : Bursts → TrojanStream
counting b = record {
  first = false;
  count = true;
  rev = b.direction;
  seq = array b.earlier b.latest;
  seq_index = length b.earlier;
}

-- The fifth burst ends the count: the four before it are judged.
abbrev pub judged : Bursts → Bool
judged b = is_trojan_seq (lengths (array b.earlier b.latest))

abbrev pub Counts : Bursts → Bool → ℕ → Outcome Fed → Type 0
Counts b rev n panic = ⊥
Counts b rev n stuck = ⊥
Counts b rev n (ok r) =
    if ltb (length (extend rev n b).earlier) 4
    then (r.stream ≡ counting (extend rev n b)) × (r.is_done ≡ false) × (r.update ≡ none)
    else (r.is_done ≡ true)
      × (r.update
          ≡ some (record {
            type = replace;
            m =
                entries (
                  field "seq" (nums (array b.earlier b.latest))
                    (field "yes" (flag (judged b)) end));
          }))

start_count-counting :
    (rev : Bool) (bytes : List ℕ) (b : Bursts) → start_count rev bytes (counting b) ≡ counting b
unfolding start_count
start_count-counting true bytes b = refl
start_count-counting false bytes b = refl

count_packet-Counts :
    (rev : Bool) (n a : ℕ) (earlier : List ℕ) (d : Bool)
    → length earlier < 4
    → Counts
        (record { latest = a; earlier = earlier; direction = d })
        rev
        n
        (count_packet rev n (counting (record { latest = a; earlier = earlier; direction = d })))
unfolding count_packet verdict_update
count_packet-Counts true n a [] true h = ground arith
count_packet-Counts true n a [] false h = ground arith
count_packet-Counts false n a [] true h = ground arith
count_packet-Counts false n a [] false h = ground arith
count_packet-Counts true n a (b ∷ []) true h = ground arith
count_packet-Counts true n a (b ∷ []) false h = ground arith
count_packet-Counts false n a (b ∷ []) true h = ground arith
count_packet-Counts false n a (b ∷ []) false h = ground arith
count_packet-Counts true n a (c ∷ b ∷ []) true h = ground arith
count_packet-Counts true n a (c ∷ b ∷ []) false h = ground arith
count_packet-Counts false n a (c ∷ b ∷ []) true h = ground arith
count_packet-Counts false n a (c ∷ b ∷ []) false h = ground arith
count_packet-Counts true n a (e ∷ c ∷ b ∷ []) true h = ground arith
count_packet-Counts true n a (e ∷ c ∷ b ∷ []) false h = ground arith
count_packet-Counts false n a (e ∷ c ∷ b ∷ []) true h = ground arith
count_packet-Counts false n a (e ∷ c ∷ b ∷ []) false h = ground arith
count_packet-Counts rev n a (e ∷ c ∷ b ∷ f ∷ r) d h = absurd (omega arith)

-- While the analyzer counts, a packet extends the latest burst or begins the next, and the fifth
-- burst ends the count with the verdict on the four before it.
pub feed-Counts :
    (rev : Bool) (x : ℕ) (bytes : List ℕ) (b : Bursts)
    → length b.earlier < 4
    → Counts b rev (length (x ∷ bytes)) (feed rev 0 (x ∷ bytes) (counting b))
unfolding feed feed_data
feed-Counts rev x bytes b h =
    rw (start_count-counting rev (x ∷ bytes) b)
      (count_packet-Counts rev (length (x ∷ bytes)) b.latest b.earlier b.direction h)

-- The packet that starts the count: the first of the client that begins with the pattern of a
-- Change Cipher Spec. Every other packet before it leaves a new stream as it is.
pub feed_starts :
    (rev : Bool) (x : ℕ) (bytes : List ℕ)
    → feed rev 0 (x ∷ bytes) new_trojan_stream ≡ (
        if not rev && has_prefix ccs_pattern (x ∷ bytes)
        then quiet
            (counting (record { latest = length (x ∷ bytes); earlier = []; direction = false }))
            false
        else quiet new_trojan_stream false)
unfolding feed feed_data start_count count_packet new_trojan_stream
feed_starts true x bytes = refl
feed_starts false x bytes = ground arith
