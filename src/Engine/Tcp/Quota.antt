-- ===== src/Engine/Tcp/Quota.antt =====
-- The limit of an analyzer of TCP streams: how many bytes it is handed, and when it ends.
use open_gfw_for_frp_integra.Prelude.{
  if◌then◌else◌, Bool-cases, length, length-take, ℕ, ◌+◌, ◌≤◌, ◌<◌, ◌≡◌, refl, ◌∙◌, inl, inr, Bool,
  true, false, ◌||◌, List, [], ◌∷◌, arith,
}
use open_gfw_for_frp_integra.Engine.Tcp.{Segment, TcpStreams, TcpEntry, feed_entry}

module _ {A : Type 0} (streams : TcpStreams A) where
  -- The same analyzer with an observer beside it, which adds up the bytes that `Feed` is handed.
  abbrev pub counted : TcpStreams (A × ℕ)
  counted = record {
    feed_stream = λ a seg.
        let r = streams.feed_stream a.0 seg in
        record {
          stream = (r.stream, a.1 + length seg.bytes);
          update = r.update;
          is_done = r.is_done;
        };
    close_stream = λ a limited. let r = streams.close_stream a.0 limited in ((r.0, a.1), r.1);
  }

  -- The segments of a stream handed to one entry, until it is done.
  unfoldable pub feed_until_done : TcpEntry (A × ℕ) → List Segment → TcpEntry (A × ℕ)
  unfolding feed_entry
  feed_until_done e [] = e
  feed_until_done e (seg ∷ segs) =
      let r = feed_entry counted e seg in
      let rest = feed_until_done r.entry segs in if r.is_done then r.entry else rest

  feed_entry_charges :
      (e : TcpEntry (A × ℕ)) (seg : Segment)
      → e.has_limit ≡ true
      → ((feed_entry counted e seg).entry.stream.1 + (feed_entry counted e seg).entry.quota
          ≡ e.stream.1 + e.quota)
        × ((feed_entry counted e seg).entry.has_limit ≡ true)
        × ((feed_entry counted e seg).is_done ≡ false → 0 < (feed_entry counted e seg).entry.quota)
  unfolding feed_entry
  feed_entry_charges e seg h = ground (arith, length-take e.quota seg.bytes)

  -- What an analyzer with a limit was handed, and what is left of its quota, add up to the limit:
  -- so over any segments it is handed at most its limit.
  pub feed_until_done_limit :
      (e : TcpEntry (A × ℕ)) (segs : List Segment)
      → e.has_limit ≡ true
      → ((feed_until_done e segs).stream.1 + (feed_until_done e segs).quota ≡ e.stream.1 + e.quota)
  unfolding feed_until_done
  feed_until_done_limit e [] h = refl
  feed_until_done_limit e (seg ∷ segs) h =
      let r = feed_entry counted e seg in
      let (charged, limited, _) = feed_entry_charges e seg h in
      elim (Bool-cases r.is_done) [
        | inl d ↦ rw d charged
        | inr d ↦ rw d (feed_until_done_limit r.entry segs limited ∙ charged)
      ]

  -- Whether one of the segments makes the entry done.
  unfoldable pub is_done_within : TcpEntry A → List Segment → Bool
  unfolding feed_entry
  is_done_within e [] = false
  is_done_within e (seg ∷ segs) =
      let r = feed_entry streams e seg in
      let rest = is_done_within r.entry segs in r.is_done || rest

  abbrev pub total : List Segment → ℕ
  total [] = 0
  total (seg ∷ segs) = length seg.bytes + total segs

  feed_entry_goes_on :
      (e : TcpEntry A) (seg : Segment)
      → e.has_limit ≡ true
      → (feed_entry streams e seg).is_done ≡ false
      → ((feed_entry streams e seg).entry.has_limit ≡ true)
        × (0 < (feed_entry streams e seg).entry.quota)
        × ((feed_entry streams e seg).entry.quota + length seg.bytes ≡ e.quota)
  unfolding feed_entry
  feed_entry_goes_on e seg h d = ground (arith, length-take e.quota seg.bytes)

  -- An entry with a limit above 0 is done once the stream has brought as many bytes as the limit,
  -- whatever its analyzer answers and however the bytes are cut into segments.
  pub is_done_within_limit :
      (e : TcpEntry A) (segs : List Segment)
      → e.has_limit ≡ true
      → 0 < e.quota
      → e.quota ≤ total segs
      → is_done_within e segs ≡ true
  unfolding is_done_within
  is_done_within_limit e [] h p q = absurd (omega arith)
  is_done_within_limit e (seg ∷ segs) h p q =
      let r = feed_entry streams e seg in
      elim (Bool-cases r.is_done) [
        | inl d ↦ rw d refl
        | inr d ↦
            let (limited, left, charged) = feed_entry_goes_on e seg h d in
            rw d (is_done_within_limit r.entry segs limited left (omega (arith, charged, q)))
      ]
