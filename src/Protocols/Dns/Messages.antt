-- ===== src/Protocols/Dns/Messages.antt =====
-- DNS over UDP: when the analyzer gives up.
use open_gfw_for_frp_integra.Prelude.{
  leb, if◌then◌else◌, Option-cases, ℕ, ◌+◌, ◌≡◌, refl, sym, ap, ◌∙◌, inl, inr, Bool, true, false,
  Option, none, some, List, [], ◌∷◌, ◌++◌,
}
use open_gfw_for_frp_integra.Protocols.Dns.{Dns, Decoder, feed_udp, parse_dns_message}

abbrev pub is_decoded : Option Dns → Bool
is_decoded none = false
is_decoded (some d) = true

module _ (decode : Decoder) where
  -- The count of invalid packets in a row, after a packet and after a sequence of them.
  abbrev pub count : ℕ → List ℕ → ℕ
  count n bytes = if is_decoded (decode bytes) then 0 else n + 1

  abbrev pub trailing : ℕ → List (List ℕ) → ℕ
  trailing n [] = n
  trailing n (p ∷ ps) = trailing (count n p) ps

  unfoldable pub feed_all : ℕ → List (List ℕ) → ℕ
  unfolding feed_udp
  feed_all n [] = n
  feed_all n (p ∷ ps) = feed_all (feed_udp decode p n).invalid_count ps

  feed_udp-count :
      (bytes : List ℕ) (n : ℕ)
      → ((feed_udp decode bytes n).invalid_count ≡ count n bytes)
        × ((feed_udp decode bytes n).is_done ≡ leb 4 (count n bytes))
  unfolding feed_udp parse_dns_message
  feed_udp-count bytes n = elim (Option-cases (decode bytes)) [
    | inl e ↦ rw e (refl, refl)
    | inr (d, e) ↦ rw e (refl, refl)
  ]

  feed_all-trailing : (n : ℕ) (ps : List (List ℕ)) → feed_all n ps ≡ trailing n ps
  unfolding feed_all
  feed_all-trailing n [] = refl
  feed_all-trailing n (p ∷ ps) =
      ap (λ k. feed_all k ps) (feed_udp-count p n).0 ∙ feed_all-trailing (count n p) ps

  trailing-append :
      (n : ℕ) (ps : List (List ℕ)) (p : List ℕ)
      → trailing n (ps ++ p ∷ []) ≡ count (trailing n ps) p
  trailing-append n [] p = refl
  trailing-append n (q ∷ ps) p = trailing-append (count n q) ps p

  -- After any packets the DNS analyzer is done with a further one exactly if that is the fourth or
  -- later in a row that the decoder refuses.
  pub feed_udp_gives_up :
      (ps : List (List ℕ)) (p : List ℕ)
      → (feed_udp decode p (feed_all 0 ps)).is_done ≡ leb 4 (trailing 0 (ps ++ p ∷ []))
  feed_udp_gives_up ps p =
      (feed_udp-count p (feed_all 0 ps)).1
      ∙ ap (leb 4) (ap (λ n. count n p) (feed_all-trailing 0 ps) ∙ sym (trailing-append 0 ps p))
