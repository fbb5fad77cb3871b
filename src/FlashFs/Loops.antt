-- ===== src/FlashFs/Loops.antt =====
-- FlashFSValidateFAT on lists of clusters that end and on lists that do not.
use common_lib.Prelude.{
  ℕ, zero, suc, ◌+◌, ◌-◌, ◌≤◌, ◌<◌, ◌≡◌, ◌==◌, ◌&&◌, ◌||◌, ◌⊎◌, refl, ap, ◌∙◌, arith, List, [], ◌∷◌,
  Bool, true, false, not, some, none, length, ltb,
}
use common_lib.FlashFs.Clusters.{Leads}
use common_lib.FlashFs.Volume.{chain_size, validate_fat}
use common_lib.FlashFs.{Board, file_entry_count, max_free_size, fat_end_cluster, FileEntry}

module _ (board : Board) (few : file_entry_count board < fat_end_cluster) where
  abbrev bad_link : ℕ → Bool
  bad_link next = next == 0 || (not (next == fat_end_cluster) && ltb (file_entry_count board) next)

  Leads-linked :
      (clusters : ℕ → ℕ) (c : ℕ) (cs : List ℕ)
      → Leads (file_entry_count board) clusters c cs
      → bad_link c ≡ false
  Leads-linked clusters c [] l = ground (arith, l)
  Leads-linked clusters c (d ∷ cs) l = ground (arith, l.0, l.1, l.2)

  chain_size-Leads :
      (fuel : ℕ) (clusters : ℕ → ℕ) (c size : ℕ) (cs : List ℕ)
      → Leads (file_entry_count board) clusters c cs
      → length cs < fuel
      → chain_size board fuel clusters c size ≡ some (some (size + length cs))
  unfolding chain_size
  chain_size-Leads zero clusters c size cs l enough = absurd (omega arith)
  chain_size-Leads (suc fuel) clusters c size [] l enough = rw ended (ap (λ x. some (some x)) plus)
    where
      ended : (c == fat_end_cluster) ≡ true
      ended = ground (arith, l)

      plus : size ≡ size + 0
      plus = omega arith
  chain_size-Leads (suc fuel) clusters c size (d ∷ cs) l enough =
      rw (not_end, l.0, Leads-linked clusters (clusters (d - 1)) cs l.3)
        (chain_size-Leads fuel clusters (clusters (d - 1)) (size + 1) cs l.3 (omega arith)
          ∙ ap (λ x. some (some x)) plus)
    where
      not_end : (c == fat_end_cluster) ≡ false
      not_end = ground (arith, l.0, l.2, few)

      plus : size + 1 + length cs ≡ size + suc (length cs)
      plus = omega arith

  -- the clusters from which the table never leads out
  pub record IsLoop (clusters : ℕ → ℕ) (P : ℕ → Type 0) : Type 0 where
    pub in_range : (c : ℕ) → P c → (1 ≤ c) × (c ≤ file_entry_count board)
    pub closed : (c : ℕ) → P c → P (clusters (c - 1))

  chain_size-IsLoop :
      (clusters : ℕ → ℕ) (P : ℕ → Type 0)
      → IsLoop clusters P
      → (fuel c size : ℕ) → P c
      → chain_size board fuel clusters c size ≡ none
  unfolding chain_size
  chain_size-IsLoop clusters P loop zero c size p = refl
  chain_size-IsLoop clusters P loop (suc fuel) c size p =
      rw (not_end, in_range)
        (chain_size-IsLoop clusters P loop fuel (clusters (c - 1)) (size + 1) (loop.closed c p))
    where
      next : ℕ
      next = clusters (c - 1)

      not_end : (c == fat_end_cluster) ≡ false
      not_end = ground (arith, few, (loop.in_range c p).1)

      in_range :
          (clusters (c - 1) == 0
            || (not (clusters (c - 1) == fat_end_cluster)
                && ltb (file_entry_count board) (clusters (c - 1))))
          ≡ false
      in_range = ground (
        arith,
        (loop.in_range (clusters (c - 1)) (loop.closed c p)).0,
        (loop.in_range (clusters (c - 1)) (loop.closed c p)).1,
      )

  -- When the first entry begins in clusters from which the table never leads out, and its first cell
  -- and free_size are in their bounds, FlashFSValidateFAT does not end with any fuel.
  pub validate_fat-IsLoop :
      (clusters : ℕ → ℕ) (P : ℕ → Type 0) (e : FileEntry) (entries : List FileEntry)
      (free_size fuel : ℕ)
      → IsLoop clusters P
      → P e.first_cluster
      → free_size ≤ max_free_size board
      → (clusters 0 ≤ file_entry_count board) ⊎ (clusters 0 ≡ fat_end_cluster)
      → validate_fat board fuel
          (record { file_entries = e ∷ entries; free_size = free_size; cluster_table = clusters })
        ≡ none
  unfolding validate_fat
  validate_fat-IsLoop clusters P e entries free_size fuel loop p fits first =
      rw
        (
          not_over,
          cell_ok,
          used,
          in_range,
          chain_size-IsLoop clusters P loop fuel e.first_cluster 0 p,
        )
        refl
    where
      not_over : ltb (max_free_size board) free_size ≡ false
      not_over = ground arith

      used : (e.first_cluster == 0) ≡ false
      used = ground (arith, (loop.in_range e.first_cluster p).0)

      in_range : ltb (file_entry_count board) e.first_cluster ≡ false
      in_range = ground (arith, (loop.in_range e.first_cluster p).1)

      cell_ok :
          (not (clusters 0 == 0)
            && (not (clusters 0 == fat_end_cluster) && ltb (file_entry_count board) (clusters 0)))
          ≡ false
      cell_ok = ground (arith, first)
