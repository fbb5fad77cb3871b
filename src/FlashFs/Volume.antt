-- ===== src/FlashFs/Volume.antt =====
-- fs/flash_fs.c: checking, mounting and formatting. `to_bytes` and `of_bytes` stand for the layout of
-- the file table in memory, and `memory` for whether malloc has memory.
use common_lib.Prelude.{
  ℕ, zero, suc, ◌+◌, ◌-◌, ◌*◌, ◌==◌, ltb, if◌then◌else◌, Bool, not, ◌&&◌, ◌||◌, Option, none, some,
  List, [], ◌∷◌, replicate,
}
use common_lib.FlashFs.{
  Code, done, enodev, ebusy, enomem, eio, Board, file_entry_count, max_free_size, fat_end_cluster,
  FileEntry, FileTable, count_for,
}
use common_lib.FlashFs.Files.{Flash, FlashFs}

module _ (board : Board) where
  -- the loop over the clusters of a file, with their number; `some none` is ENODEV
  unfoldable pub chain_size : ℕ → (ℕ → ℕ) → ℕ → ℕ → Option (Option ℕ)
  chain_size zero clusters c file_size = none
  chain_size (suc fuel) clusters c file_size =
      let next = clusters (c - 1) in
      let rest = chain_size fuel clusters next (file_size + 1) in
      if c == fat_end_cluster
      then some (some file_size)
      else if next == 0 || (not (next == fat_end_cluster) && ltb (file_entry_count board) next)
      then some none
      else rest

  -- the check of one entry: the bytes that the file takes
  unfoldable pub file_bytes : ℕ → (ℕ → ℕ) → FileEntry → Option (Option ℕ)
  unfolding chain_size
  file_bytes fuel clusters e =
      if e.first_cluster == 0
      then some (some 0)
      else if ltb (file_entry_count board) e.first_cluster
      then some none
      else elim (chain_size fuel clusters e.first_cluster 0) [
        | none ↦ none
        | some none ↦ some none
        | some (some file_size) ↦
            if file_size == count_for board e.size
            then some (some (file_size * board.erase_size))
            else some none
      ]

  -- the loop of FlashFSValidateFAT: the free and the used bytes
  unfoldable pub validate_from : ℕ → (ℕ → ℕ) → ℕ → List FileEntry → ℕ → ℕ → Option (Option (ℕ × ℕ))
  unfolding file_bytes
  validate_from fuel clusters i [] free used = some (some (free, used))
  validate_from fuel clusters i (e ∷ entries) free used =
      let c = clusters i in
      let free' = if c == 0 then free + board.erase_size else free in
      if not (c == 0) && (not (c == fat_end_cluster) && ltb (file_entry_count board) c)
      then some none
      else elim (file_bytes fuel clusters e) [
        | none ↦ none
        | some none ↦ some none
        | some (some bytes) ↦ validate_from fuel clusters (i + 1) entries free' (used + bytes)
      ]

  -- `FlashFSValidateFAT`, with fuel for the loop over a file's clusters
  unfoldable pub validate_fat : ℕ → FileTable → Option Code
  unfolding validate_from
  validate_fat fuel t =
      if ltb (max_free_size board) t.free_size
      then some enodev
      else elim (validate_from fuel t.cluster_table 0 t.file_entries 0 0) [
        | none ↦ none
        | some none ↦ some enodev
        | some (some (free, used)) ↦
            if not (t.free_size == free)
            then some enodev
            else if not (used + free == max_free_size board)
            then some enodev
            else some done
      ]

abbrev pub empty_entry : FileEntry
empty_entry = record { size = 0; first_cluster = 0; name = [] }

-- the file table that FlashFSFormat makes
abbrev pub empty_table : Board → FileTable
empty_table board = record {
  file_entries = replicate (file_entry_count board) empty_entry;
  free_size = max_free_size board;
  cluster_table = λ i. 0;
}

module _ {D : Type 0} (board : Board) (ops : Flash D) (to_bytes : FileTable → List ℕ)
    (of_bytes : List ℕ → FileTable) (table_bytes : ℕ) where
  abbrev pub checked : FileTable → FlashFs D → Option Code → Option (Code × FlashFs D)
  checked t fs none = none
  checked t fs (some done) = some (done, record fs { table = some t })
  checked t fs (some code) = some (code, record fs { table = none })

  -- `FlashFSMount`
  unfoldable pub mount : ℕ → Bool → FlashFs D → Option (Code × FlashFs D)
  unfolding validate_fat
  mount fuel memory fs = elim fs.table [
    | some t ↦ some (ebusy, fs)
    | none ↦ if not memory then some (enomem, fs) else elim (ops.read 0 table_bytes fs.flash) [
      | none ↦ some (eio, fs)
      | some bytes ↦ checked (of_bytes bytes) fs (validate_fat board fuel (of_bytes bytes))
    ]
  ]

  -- `FlashFSSync`
  unfoldable pub sync : FlashFs D → Code × FlashFs D
  sync fs = elim fs.table [
    | none ↦ (enodev, fs)
    | some t ↦
        let (erased, ok) = ops.erase 0 board.erase_size fs.flash in
        let (stored, written) = ops.write 0 (to_bytes t) erased in
        if not ok
        then (eio, record fs { flash = erased })
        else (if written then done else eio, record fs { flash = stored })
  ]

  -- `FlashFSUnmount`
  unfoldable pub unmount : FlashFs D → Code × FlashFs D
  unfolding sync
  unmount fs = elim fs.table [
    | none ↦ (enodev, fs)
    | some t ↦ let (code, fs') = sync fs in (code, record fs' { table = none })
  ]

  -- `FlashFSFormat`
  unfoldable pub format : Bool → FlashFs D → Code × FlashFs D
  unfolding sync
  format memory fs =
      let blank = record fs { table = some (empty_table board) } in
      elim fs.table [ none ↦ if memory then sync blank else (enomem, fs) | some t ↦ sync blank ]
