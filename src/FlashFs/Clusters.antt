-- ===== src/FlashFs/Clusters.antt =====
-- Lists of clusters in a table.
use common_lib.Prelude.{
  ℕ, zero, suc, ◌+◌, ◌-◌, ◌≤◌, ◌<◌, ◌≡◌, ◌≢◌, ◌==◌, refl, arith, List, [], ◌∷◌, if◌then◌else◌,
}
use common_lib.FlashFs.{fat_end_cluster}

-- From the cluster `c` the table leads through the clusters of the list to FAT_END_CLUSTER. Clusters
-- are counted from 1, and `n` is how many there are.
abbrev pub Leads : ℕ → (ℕ → ℕ) → ℕ → List ℕ → Type 0
Leads n t c [] = c ≡ fat_end_cluster
Leads n t c (d ∷ cs) = (c ≡ d) × (1 ≤ d) × (d ≤ n) × Leads n t (t (d - 1)) cs

abbrev pub Absent : ℕ → List ℕ → Type 0
Absent c [] = Unit {0}
Absent c (d ∷ cs) = (c ≢ d) × Absent c cs

abbrev pub AllApart : List ℕ → List ℕ → Type 0
AllApart [] ds = Unit {0}
AllApart (c ∷ cs) ds = Absent c ds × AllApart cs ds

abbrev pub AllDiffer : List ℕ → Type 0
AllDiffer [] = Unit {0}
AllDiffer (c ∷ cs) = Absent c cs × AllDiffer cs

abbrev pub AllFree : (ℕ → ℕ) → List ℕ → Type 0
AllFree t [] = Unit {0}
AllFree t (c ∷ cs) = (t (c - 1) ≡ 0) × AllFree t cs

-- clusters in order, none before `i` and none behind `n`
abbrev pub Rising : ℕ → ℕ → List ℕ → Type 0
Rising n i [] = Unit {0}
Rising n i (c ∷ cs) = (i ≤ c) × (c ≤ n) × Rising n (c + 1) cs

-- The clusters hold so many bytes and none is left over, `e` bytes each.
abbrev pub Covers : ℕ → List ℕ → ℕ → Type 0
Covers e [] bytes = bytes ≡ 0
Covers e (c ∷ cs) bytes = (0 < bytes) × Covers e cs (bytes - e)

-- the bytes in the free clusters among `n` of them from the index `i`
abbrev pub room : ℕ → (ℕ → ℕ) → ℕ → ℕ → ℕ
room e t zero i = 0
room e t (suc n) i = (if t i == 0 then e else 0) + room e t n (i + 1)

pub Rising-later : (n i j : ℕ) (cs : List ℕ) → i ≤ j → Rising n j cs → Rising n i cs
Rising-later n i j [] h r = tt
Rising-later n i j (c ∷ cs) h r = (omega arith, r.1, r.2)

pub Absent-of_Rising : (n i c : ℕ) (cs : List ℕ) → c < i → Rising n i cs → Absent c cs
Absent-of_Rising n i c [] h r = tt
Absent-of_Rising n i c (d ∷ cs) h r =
    (omega arith, Absent-of_Rising n (d + 1) c cs (omega arith) r.2)

pub AllDiffer-of_Rising : (n i : ℕ) (cs : List ℕ) → Rising n i cs → AllDiffer cs
AllDiffer-of_Rising n i [] r = tt
AllDiffer-of_Rising n i (c ∷ cs) r =
    (Absent-of_Rising n (c + 1) c cs (omega arith) r.2, AllDiffer-of_Rising n (c + 1) cs r.2)

pub Leads-ne-zero : (n : ℕ) (t : ℕ → ℕ) (c : ℕ) (cs : List ℕ) → Leads n t c cs → c ≢ 0
Leads-ne-zero n t c [] l = omega (arith, l)
Leads-ne-zero n t c (d ∷ cs) l = omega (arith, l.0, l.1)

-- A table that is the same at the clusters of a list.
pub Leads-same :
    (n : ℕ) (t t' : ℕ → ℕ) (c : ℕ) (cs : List ℕ)
    → ((d : ℕ) → 1 ≤ d → d ≤ n → t (d - 1) ≢ 0 → t' (d - 1) ≡ t (d - 1))
    → n < fat_end_cluster
    → Leads n t c cs
    → Leads n t' c cs
Leads-same n t t' c [] same small l = l
Leads-same n t t' c (d ∷ cs) same small (e, low, high, l) = (
  e,
  low,
  high,
  rw (same d low high (Leads-ne-zero n t (t (d - 1)) cs l))
      (Leads-same n t t' (t (d - 1)) cs same small l),
)

pub room-same :
    (e : ℕ) (t t' : ℕ → ℕ) (n i : ℕ) → ((j : ℕ) → i ≤ j → t' j ≡ t j) → room e t' n i ≡ room e t n i
room-same e t t' zero i same = refl
room-same e t t' (suc n) i same =
    rw (same i (omega arith), room-same e t t' n (i + 1) (λ j h. same j (omega arith))) refl

-- the bytes of the clusters
abbrev pub spent : ℕ → List ℕ → ℕ
spent e [] = 0
spent e (c ∷ cs) = e + spent e cs
