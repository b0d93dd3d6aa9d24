-- ===== src/Protocols/Trojan/Bounds.antt =====
-- The region in which the decision tree can answer "yes".
use open_gfw_for_frp_integra.Prelude.{◌⊎◌, ℕ, ◌≤◌, ◌≡◌, true, arith}
use open_gfw_for_frp_integra.Protocols.Trojan.Tree.{
  tree_low, tree_mid, tree_high, tree_top, is_trojan_seq,
}

tree_low_region :
    (l₁ l₂ l₃ l₄ : ℕ)
    → tree_low l₁ l₂ l₃ l₄ ≡ true
    → (157 ≤ l₁) × (l₁ ≤ 892) × (41 ≤ l₃) × (l₃ ≤ 1346)
unfolding tree_low
tree_low_region l₁ l₂ l₃ l₄ h = ground arith

tree_mid_region : (l₁ l₂ l₃ l₄ : ℕ) → tree_mid l₁ l₂ l₃ l₄ ≡ true → (186 ≤ l₁) × (l₂ ≤ 782)
unfolding tree_mid
tree_mid_region l₁ l₂ l₃ l₄ h = ground arith

tree_high_region : (l₁ l₂ l₃ l₄ : ℕ) → tree_high l₁ l₂ l₃ l₄ ≡ true → 86 ≤ l₃
unfolding tree_high
tree_high_region l₁ l₂ l₃ l₄ h = ground arith

tree_top_region : (l₁ l₂ l₃ l₄ : ℕ) → tree_top l₁ l₂ l₃ l₄ ≡ true → l₂ ≤ 13314
unfolding tree_top
tree_top_region l₁ l₂ l₃ l₄ h = ground arith

-- The decision tree answers "yes" only to sequences in four bands of the second length, with bounds
-- on the others: between 783 and 2431 and above 13314 it never does.
pub is_trojan_seq_region :
    (l₁ l₂ l₃ l₄ : ℕ)
    → is_trojan_seq (l₁, l₂, l₃, l₄) ≡ true
    → ((l₂ ≤ 157) × (157 ≤ l₁) × (l₁ ≤ 892) × (41 ≤ l₃) × (l₃ ≤ 1346))
      ⊎ ((158 ≤ l₂) × (l₂ ≤ 782) × (186 ≤ l₁))
      ⊎ ((2432 ≤ l₂) × (l₂ ≤ 6232) × (86 ≤ l₃))
      ⊎ ((6233 ≤ l₂) × (l₂ ≤ 13314))
unfolding is_trojan_seq
is_trojan_seq_region l₁ l₂ l₃ l₄ h = ground (
  arith,
  tree_low_region l₁ l₂ l₃ l₄,
  tree_mid_region l₁ l₂ l₃ l₄,
  tree_high_region l₁ l₂ l₃ l₄,
  tree_top_region l₁ l₂ l₃ l₄,
)
