-- ===== src/FlashFs/Counts.antt =====
-- How many clusters a file needs.
use mathlib.Core.Path.{subst}
use native.Mathlib.Nat.{div-eq-sub-div, div-eq_of_lt, mod-eq_of_lt, mod-eq-sub-mod}
use common_lib.Prelude.{
  ℕ, suc, ◌-◌, ◌≤◌, ◌<◌, ◌≡◌, inl, inr, refl, ap, ◌∙◌, arith, List, [], ◌∷◌, Bool-cases, leb,
  length,
}
use common_lib.FlashFs.Clusters.{Covers}
use common_lib.FlashFs.{Board, count_for}

module _ (board : Board) (sized : 0 < board.erase_size) where
  abbrev e : ℕ
  e = board.erase_size

  count_for-more : (n : ℕ) → e ≤ n → count_for board n ≡ suc (count_for board (n - e))
  count_for-more n h = rw (div-eq-sub-div sized h, mod-eq-sub-mod h) (omega arith)

  count_for-last : (n : ℕ) → 0 < n → n < e → count_for board n ≡ 1
  count_for-last n some h = rw (div-eq_of_lt h, mod-eq_of_lt h) (ground arith)

  pub count_for-Covers : (n : ℕ) (cs : List ℕ) → Covers e cs n → count_for board n ≡ length cs
  count_for-Covers n [] c = rw c (ground arith)
  count_for-Covers n (x ∷ cs) c = elim (Bool-cases (leb e n)) [
    | inl more ↦ count_for-more n (ground (arith, more)) ∙ ap suc (count_for-Covers (n - e) cs c.1)
    | inr last ↦
        count_for-last n c.0 (ground (arith, last))
        ∙ ap suc (none_left cs (subst (Covers e cs) (ground (arith, last)) c.1))
  ]
    where
      none_left : (ds : List ℕ) → Covers e ds 0 → 0 ≡ length ds
      none_left [] h = refl
      none_left (d ∷ ds) h = absurd (omega (arith, h.0))
