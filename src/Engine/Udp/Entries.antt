-- ===== src/Engine/Udp/Entries.antt =====
-- The entries of a UDP stream: which of them a packet moves, and in which state it leaves them.
pub mod Moves
use mathlib.Core.List.{Perm, perm_append_singleton}
use mathlib.Core.List.Perm
use open_gfw_for_frp_integra.Prelude.{
  leb, if◌then◌else◌, Bool-cases, length, ℕ, ◌-◌, ◌≡◌, refl, ap, inl, inr, Bool, true, false, not,
  ◌&&◌, ◌||◌, List, [], ◌∷◌, map,
}
use open_gfw_for_frp_integra.Analyzer.{CombinedPropMap}
use open_gfw_for_frp_integra.Engine.Udp.{
  UdpStreams, UdpEntry, feed_entry, feed_into, feed_entries, close_entries,
}

abbrev pub select : {A : Type 0} → (A → Bool) → List A → List A
select p [] = []
select p (x ∷ xs) = if p x then x ∷ select p xs else select p xs

module _ {A : Type 0} (streams : UdpStreams A) where
  module _ (rev : Bool) (payload : List ℕ) where
    -- The payload takes all that the entry may still read.
    abbrev pub spends : UdpEntry A → Bool
    spends e = e.has_limit && leb e.quota (length payload)

    -- The entry's analyzer is done with this packet, or its quota is.
    abbrev pub leaves : UdpEntry A → Bool
    leaves e = spends e || (streams.feed_stream e.stream rev payload).is_done

    -- The entry with the analyzer that has read the packet, closed if the quota is spent.
    abbrev pub fed : UdpEntry A → UdpEntry A
    fed e =
        let read = (streams.feed_stream e.stream rev payload).stream in
        record {
          name = e.name;
          stream = if spends e then (streams.close_stream read true).0 else read;
          has_limit = e.has_limit;
          quota = if e.has_limit then e.quota - length payload else e.quota;
        }

    feed_entry_lem :
        (e : UdpEntry A)
        → ((feed_entry streams e rev payload).entry ≡ fed e)
          × ((feed_entry streams e rev payload).is_done ≡ leaves e)
    unfolding feed_entry
    feed_entry_lem e = elim (Bool-cases e.has_limit) [
      | inl h ↦ elim (Bool-cases (leb e.quota (length payload))) [
        | inl q ↦ rw (h, q) (refl, refl)
        | inr q ↦ rw (h, q) (refl, refl)
      ]
      | inr h ↦ rw h (refl, refl)
    ]

    pub feed_entries_moved :
        (es : List (UdpEntry A)) (cpm : CombinedPropMap)
        → ((feed_entries streams es rev payload cpm).active
            ≡ map fed (select (λ e. not (leaves e)) es))
          × Perm ((feed_entries streams es rev payload cpm).finished) (map fed (select leaves es))
    unfolding feed_entries feed_into
    feed_entries_moved [] cpm = (refl, Perm.refl [])
    feed_entries_moved (e ∷ es) cpm =
        let (same, moved) = feed_entries_moved es cpm in
        let (is_fed, is_left) = feed_entry_lem e in
        elim (Bool-cases (leaves e)) [
          | inl d ↦
              rw (is_left, is_fed, d)
                (
                  same,
                  Perm.trans
                      (perm_append_singleton (fed e)
                        ((feed_entries streams es rev payload cpm).finished))
                      (Perm.cons (fed e) moved),
                )
          | inr d ↦ rw (is_left, is_fed, d) (ap (λ t. fed e ∷ t) same, moved)
        ]

  -- The entry of which the stream is closed for another reason than its quota.
  abbrev pub shut : UdpEntry A → UdpEntry A
  shut e = record e { stream = (streams.close_stream e.stream false).0 }

  pub close_entries-shut :
      (es : List (UdpEntry A)) (cpm : CombinedPropMap) (updated : Bool)
      → (close_entries streams es cpm updated).closed ≡ map shut es
  unfolding close_entries
  close_entries-shut [] cpm updated = refl
  close_entries-shut (e ∷ es) cpm updated = ap (λ t. shut e ∷ t) (close_entries-shut es _ _)
