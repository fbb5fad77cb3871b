-- ===== src/FlashFs/Chains.antt =====
-- A list of clusters that ends meets no cluster twice; and giving clusters back.
use mathlib.Core.Path.{subst}
use common_lib.Prelude.{
  ℕ, zero, suc, ◌+◌, ◌-◌, ◌≤◌, ◌<◌, ◌≡◌, ◌≢◌, ◌==◌, refl, ap, ◌∙◌, sym, arith, List, [], ◌∷◌,
  length, Bool-cases, ==_iff, inl, inr,
}
use common_lib.FlashFs.Clusters.{Leads, Absent, AllApart, AllDiffer, room, room-same}
use common_lib.FlashFs.{fat_end_cluster, set_cluster}

module _ (n : ℕ) (few : n < fat_end_cluster) (t : ℕ → ℕ) where
  Leads-length :
      (c c' : ℕ) (cs ds : List ℕ)
      → c ≡ c'
      → Leads n t c cs
      → Leads n t c' ds
      → length cs ≡ length ds
  Leads-length c c' [] [] e l m = refl
  Leads-length c c' [] (d ∷ ds) e l m = absurd (omega (arith, m.0, m.2))
  Leads-length c c' (x ∷ cs) [] e l m = absurd (omega (arith, l.0, l.2))
  Leads-length c c' (x ∷ cs) (d ∷ ds) e l m = ap suc (
      Leads-length (t (x - 1)) (t (d - 1)) cs ds (ap (λ (y : ℕ). t (y - 1)) (sym l.0 ∙ e ∙ m.0)) l.3
        m.3)

  -- A cluster is not in a list that is not longer than that behind it.
  Leads-Absent :
      (x : ℕ) (cs : List ℕ) (c : ℕ) (l : List ℕ)
      → Leads n t (t (x - 1)) cs
      → Leads n t c l
      → length l ≤ length cs
      → Absent x l
  Leads-Absent x cs c [] lead m h = tt
  Leads-Absent x cs c (d ∷ l) lead m h =
      (differs, Leads-Absent x cs (t (d - 1)) l lead m.3 (omega arith))
    where
      differs : x ≢ d
      differs e =
          omega (
            arith,
            Leads-length (t (x - 1)) (t (d - 1)) cs l (ap (λ (y : ℕ). t (y - 1)) e) lead m.3,
          )

  pub Leads-AllDiffer : (c : ℕ) (cs : List ℕ) → Leads n t c cs → AllDiffer cs
  Leads-AllDiffer c [] l = tt
  Leads-AllDiffer c (x ∷ cs) l =
      (Leads-Absent x cs (t (x - 1)) cs l.3 l.3 (omega arith), Leads-AllDiffer (t (x - 1)) cs l.3)

-- The list does not pass by the cluster that has changed.
pub Leads-else :
    (n : ℕ) (t : ℕ → ℕ) (x v c : ℕ) (cs : List ℕ)
    → 1 ≤ x
    → Absent x cs
    → Leads n t c cs
    → Leads n (set_cluster t (x - 1) v) c cs
Leads-else n t x v c [] h a l = l
Leads-else n t x v c (d ∷ cs) h a (e, low, high, l) =
    (e, low, high, rw same (Leads-else n t x v (t (d - 1)) cs h a.1 l))
  where
    same : set_cluster t (x - 1) v (d - 1) ≡ t (d - 1)
    same = ground (arith, a.0)

pub room-given :
    (e : ℕ) (t : ℕ → ℕ) (rounds k j : ℕ)
    → k ≤ j
    → j < k + rounds
    → t j ≢ 0
    → room e (set_cluster t j 0) rounds k ≡ room e t rounds k + e
room-given e t zero k j h i u = absurd (omega arith)
room-given e t (suc rounds) k j h i u = elim (Bool-cases (k == j)) [
  | inl here ↦ ground (
    arith,
    ap t ((==_iff k j).0 here),
    room-same e t (set_cluster t j 0) rounds (k + 1) (λ m q. ground (arith, here, q)),
  )
  | inr there ↦
      ground (arith, there, room-given e t rounds (k + 1) j (ground (arith, there)) (omega arith) u)
]

-- The list passes by all the clusters that have changed.
pub Leads-apart :
    (n : ℕ) (t t' : ℕ → ℕ) (cs : List ℕ)
    → ((j : ℕ) → Absent (j + 1) cs → t' j ≡ t j)
    → (c : ℕ) (ds : List ℕ) → AllApart ds cs
    → Leads n t c ds
    → Leads n t' c ds
Leads-apart n t t' cs same c [] apart l = l
Leads-apart n t t' cs same c (d ∷ ds) apart (e, low, high, l) = (
  e,
  low,
  high,
  rw (same (d - 1) (subst (λ x. Absent x cs) back apart.0))
      (Leads-apart n t t' cs same (t (d - 1)) ds apart.1 l),
)
  where
    back : d ≡ d - 1 + 1
    back = omega arith
