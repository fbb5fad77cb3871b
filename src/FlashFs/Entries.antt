-- ===== src/FlashFs/Entries.antt =====
-- Entries of the file table: the one that is free, and the one that a name finds.
use common_lib.Prelude.{
  ℕ, zero, suc, ◌+◌, ◌-◌, ◌≤◌, ◌≡◌, ◌≢◌, ◌==◌, ◌&&◌, inl, inr, refl, ap, ◌∙◌, arith, List, [], ◌∷◌,
  Bool-cases, true, false, not, Option, some, none, set, get_elem?,
}
use common_lib.FlashFs.Clusters.{Absent, AllFree}
use common_lib.FlashFs.Files.{free_entry}
use common_lib.FlashFs.Access.{find_file}
use common_lib.FlashFs.{Code, done, FileEntry, FileTable, same_name, find_from, internal_file_find}

pub same_name_refl : (name : List ℕ) → same_name name name ≡ true
same_name_refl [] = refl
same_name_refl (c ∷ name) = ground (arith, same_name_refl name)

-- the entry that FlashFSFileCreate uses
pub free_entry-found :
    (k : ℕ) (entries : List FileEntry) (i : ℕ)
    → free_entry k entries ≡ some i
    → (e : FileEntry) × (get_elem? entries (i - k) ≡ some e) × (e.first_cluster ≡ 0) × (k ≤ i)
unfolding free_entry
free_entry-found k [] i h = absurd (cc)
free_entry-found k (e ∷ entries) i h = elim (Bool-cases (e.first_cluster == 0)) [
  | inl here ↦
      let at : i ≡ k = ground (arith, here, h) in
      (e, rw (at, minus k) refl, ground (arith, here), omega (arith, at))
  | inr there ↦
      let r = free_entry-found (k + 1) entries i (rw there at h) in
      let step : i - k ≡ suc (i - (k + 1)) = omega (arith, r.3) in
      (r.0, rw step r.1, r.2, omega (arith, r.3))
]
  where
    minus : (k : ℕ) → k - k ≡ 0
    minus k = omega arith

pub find_from-set :
    (k : ℕ) (name : List ℕ) (entries : List FileEntry) (j : ℕ) (old e : FileEntry)
    → find_from k name entries ≡ none
    → get_elem? entries j ≡ some old
    → (e.first_cluster == 0) ≡ false
    → same_name name e.name ≡ true
    → find_from k name (set entries j e) ≡ some (k + j)
unfolding find_from
find_from-set k name [] j old e h g u s = absurd (cc)
find_from-set k name (x ∷ entries) zero old e h g u s = rw (u, s) (ap some (add_none k))
  where
    add_none : (k : ℕ) → k ≡ k + 0
    add_none k = omega arith
find_from-set k name (x ∷ entries) (suc j) old e h g u s =
    elim (Bool-cases (not (x.first_cluster == 0) && same_name name x.name)) [
      | inl same ↦ absurd (ground (arith, same, h))
      | inr other ↦
          rw other
            (find_from-set (k + 1) name entries j old e (rw other at h) g u s ∙ ap some (add_one k))
    ]
  where
    add_one : (k : ℕ) → k + 1 + j ≡ k + suc j
    add_one k = omega arith

pub find_file-found :
    {D : Type 0} (name : List ℕ) (t : FileTable) (d : D) (i : ℕ) (e : FileEntry)
    → internal_file_find name t ≡ (done, some i)
    → get_elem? t.file_entries i ≡ some e
    → find_file name (record { table = some t; flash = d })
      ≡ (done, some (record { name = []; size = e.size; id = i }))
unfolding find_file
find_file-found name t d i e h g =
    rw (find_file, h, g)
      (ap (λ (r : Code × Option ℕ). (r.0, some (record { name = []; size = e.size; id = i }))) h)

-- A cluster that is not free is none of the free ones.
pub Absent-of_AllFree :
    (t : ℕ → ℕ) (x : ℕ) (cs : List ℕ) → t x ≢ 0 → AllFree t cs → Absent (x + 1) cs
Absent-of_AllFree t x [] used f = tt
Absent-of_AllFree t x (c ∷ cs) used f = (differs, Absent-of_AllFree t x cs used f.1)
  where
    differs : x + 1 ≢ c
    differs e = used (ap t (omega arith) ∙ f.0)
