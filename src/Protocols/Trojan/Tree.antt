-- ===== src/Protocols/Trojan/Tree.antt =====
-- isTrojanSeq of analyzer/tcp/trojan.go: a decision tree over the lengths of the first four bursts.
-- Its four large branches are functions of their own.
use open_gfw_for_frp_integra.Prelude.{leb, if◌then◌else◌, ℕ, Bool, true, false}

unfoldable pub tree_low : ℕ → ℕ → ℕ → ℕ → Bool
tree_low l₁ l₂ l₃ l₄ =
    if leb l₁ 156
    then (if leb l₃ 108 then false else false)
    else (if leb l₁ 892
        then (if leb l₃ 40
            then false
            else (if leb l₃ 788
                then (if leb l₄ 185
                    then (if leb l₁ 411 then true else false)
                    else (if leb l₂ 112 then false else true))
                else (if leb l₃ 1346 then (if leb l₁ 418 then false else true) else false)))
        else (if leb l₂ 120
            then (if leb l₂ 63 then false else (if leb l₄ 653 then false else false))
            else false))

unfoldable pub tree_mid : ℕ → ℕ → ℕ → ℕ → Bool
tree_mid l₁ l₂ l₃ l₄ =
    if leb l₁ 206
    then (if leb l₁ 185
        then (if leb l₁ 171 then false else (if leb l₄ 211 then false else false))
        else (if leb l₂ 251 then true else false))
    else (if leb l₂ 286
        then (if leb l₁ 1123
            then (if leb l₃ 70
                then false
                else (if leb l₁ 659
                    then (if leb l₃ 370 then true else false)
                    else (if leb l₄ 272 then false else true)))
            else (if leb l₄ 537
                then (if leb l₂ 276 then (if leb l₃ 1877 then false else false) else false)
                else (if leb l₁ 1466
                    then (if leb l₁ 1435 then false else true)
                    else (if leb l₂ 193 then false else false))))
        else (if leb l₁ 284
            then (if leb l₁ 277
                then (if leb l₂ 726 then false else (if leb l₂ 768 then true else false))
                else (if leb l₂ 782 then (if leb l₄ 783 then true else false) else false))
            else (if leb l₂ 492
                then (if leb l₂ 396
                    then (if leb l₂ 322 then false else false)
                    else (if leb l₄ 971 then false else true))
                else (if leb l₂ 2128
                    then (if leb l₂ 1418 then false else false)
                    else (if leb l₃ 103 then false else false)))))

unfoldable pub tree_high : ℕ → ℕ → ℕ → ℕ → Bool
tree_high l₁ l₂ l₃ l₄ =
    if leb l₃ 85
    then (if leb l₂ 3599 then false else (if leb l₁ 613 then false else false))
    else (if leb l₃ 220
        then (if leb l₄ 1173
            then (if leb l₁ 874
                then (if leb l₄ 337
                    then (if leb l₄ 68 then true else true)
                    else (if leb l₁ 667 then true else true))
                else (if leb l₃ 108
                    then (if leb l₁ 1930 then true else true)
                    else (if leb l₂ 5383 then false else true)))
            else false)
        else (if leb l₁ 664
            then (if leb l₃ 411
                then (if leb l₃ 383
                    then (if leb l₄ 346 then true else false)
                    else (if leb l₁ 445 then true else false))
                else (if leb l₂ 3708
                    then (if leb l₄ 307 then true else false)
                    else (if leb l₂ 4656 then false else false)))
            else (if leb l₁ 1055
                then (if leb l₃ 580
                    then (if leb l₁ 724 then true else false)
                    else (if leb l₁ 678 then false else true))
                else (if leb l₂ 5352
                    then (if leb l₃ 1586 then false else false)
                    else (if leb l₄ 2173 then true else false)))))

unfoldable pub tree_top : ℕ → ℕ → ℕ → ℕ → Bool
tree_top l₁ l₂ l₃ l₄ =
    if leb l₂ 9408
    then (if leb l₁ 670
        then (if leb l₄ 76
            then (if leb l₃ 175 then true else true)
            else (if leb l₂ 9072
                then (if leb l₃ 314
                    then (if leb l₃ 179 then false else false)
                    else (if leb l₄ 708 then false else false))
                else true))
        else (if leb l₁ 795
            then (if leb l₂ 6334
                then (if leb l₂ 6288 then true else false)
                else (if leb l₄ 6404
                    then (if leb l₂ 8194 then true else true)
                    else (if leb l₂ 8924 then false else true)))
            else (if leb l₃ 732
                then (if leb l₁ 1397
                    then (if leb l₃ 179 then false else false)
                    else (if leb l₁ 1976 then false else false))
                else (if leb l₁ 2840 then (if leb l₁ 2591 then false else true) else false))))
    else (if leb l₄ 30
        then false
        else (if leb l₂ 13314
            then (if leb l₄ 1786
                then (if leb l₂ 13018 then (if leb l₄ 869 then false else false) else true)
                else (if leb l₃ 775 then false else false))
            else (if leb l₄ 73
                then false
                else (if leb l₃ 640
                    then (if leb l₃ 237 then false else false)
                    else (if leb l₂ 43804 then false else false)))))

unfoldable pub is_trojan_seq : ℕ × ℕ × ℕ × ℕ → Bool
is_trojan_seq (l₁, l₂, l₃, l₄) =
    if leb l₂ 2431
    then (if leb l₂ 157 then (tree_low l₁ l₂ l₃ l₄) else (tree_mid l₁ l₂ l₃ l₄))
    else (if leb l₂ 6232 then (tree_high l₁ l₂ l₃ l₄) else (tree_top l₁ l₂ l₃ l₄))
