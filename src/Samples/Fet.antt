-- ===== src/Samples/Fet.antt =====
-- Tests of the metrics of analyzer/tcp/fet.go.
use open_gfw_for_frp_integra.Prelude.{ℕ, ◌≤◌, ◌≡◌, refl, List, [], ◌∷◌}
use open_gfw_for_frp_integra.Protocols.Fet.{contiguous_printable}
use open_gfw_for_frp_integra.Protocols.Fet.Metrics.{Run, contiguous_printable_longest}

abbrev mixed : List ℕ
mixed = 65 ∷ 200 ∷ 66 ∷ 67 ∷ 68 ∷ 7 ∷ 69 ∷ []

longest_of_mixed : contiguous_printable mixed ≡ 3
unfolding contiguous_printable
longest_of_mixed = refl

contiguous_printable_longest_example :
    Run mixed (contiguous_printable mixed)
    × ((n : ℕ) → Run mixed n → n ≤ contiguous_printable mixed)
contiguous_printable_longest_example = contiguous_printable_longest mixed
