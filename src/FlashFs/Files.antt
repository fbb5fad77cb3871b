-- ===== src/FlashFs/Files.antt =====
-- fs/flash_fs.c: the files. The bytes of a file table, as the compiler lays them out, and the memory
-- that malloc has are parameters too.
use common_lib.Prelude.{
  ℕ, zero, suc, ◌+◌, ◌-◌, ◌*◌, ◌%◌, ◌==◌, leb, ltb, if◌then◌else◌, Bool, not, Option, none, some,
  List, [], ◌∷◌, ◌++◌, take, drop, set, get_elem?, replicate,
}
use common_lib.FlashFs.{
  Code, done, is_done, enodev, eio, einval, enospc, eexist, enfile, Board, max_file_name_length,
  FileEntry, FileTable, internal_file_find, Claim, build_cluster_list,
}

-- FlashFSRead, FlashFSWrite and FlashFSErase: a state of the flash, and whether they succeeded
pub record Flash (D : Type 0) : Type 0 where
  pub read : ℕ → ℕ → D → Option (List ℕ)
  pub write : ℕ → List ℕ → D → D × Bool
  pub erase : ℕ → ℕ → D → D × Bool

-- `data`, which is none for NULL, and the flash
pub record FlashFs (D : Type 0) : Type 0 where
  pub table : Option FileTable
  pub flash : D

module _ {D : Type 0} where
  abbrev pub with_flash : FileTable → Option (Code × D) → Option (Code × FlashFs D)
  with_flash t none = none
  with_flash t (some (code, d)) = some (code, record { table = some t; flash = d })

-- the first entry without a file
unfoldable pub free_entry : ℕ → List FileEntry → Option ℕ
free_entry i [] = none
free_entry i (e ∷ entries) = if e.first_cluster == 0 then some i else free_entry (i + 1) entries

abbrev pub claim_of : FileTable → ℕ → Claim
claim_of t first = record { first = first; clusters = t.cluster_table; free = t.free_size }

-- a claim put back into the table, for an entry
abbrev pub with_claim : FileTable → ℕ → FileEntry → Claim → FileTable
with_claim t i e a = record {
  file_entries = set t.file_entries i (record e { first_cluster = a.first });
  free_size = a.free;
  cluster_table = a.clusters;
}

module _ {D : Type 0} (board : Board) (ops : Flash D) where
  -- the loop of FlashFSInternalWrite over the parts of the last cluster, and what is behind it
  unfoldable pub write_tail : ℕ → ℕ → List ℕ → ℕ → D → Option (Code × D)
  write_tail zero offset contents length d = none
  write_tail (suc fuel) offset contents length d =
      let padded =
        ops.write offset (take length contents ++ replicate (board.program_size - length) 0xff) d in
      let (d', ok) = ops.write offset (take board.program_size contents) d in
      let rest =
        write_tail fuel (offset + board.program_size) (drop board.program_size contents)
          (length - board.program_size) d' in
      if leb board.program_size length
      then if ok then rest else some (eio, d')
      else if length == 0
      then some (done, d)
      else some (if padded.1 then done else eio, padded.0)

  -- the loop of FlashFSInternalWrite
  unfoldable pub write_from : ℕ → (ℕ → ℕ) → ℕ → List ℕ → ℕ → D → Option (Code × D)
  write_from zero clusters c contents length d = none
  write_from (suc fuel) clusters c contents length d =
      let offset = c * board.erase_size in
      let (d', ok) = ops.erase offset board.erase_size d in
      let (d'', written) = ops.write offset (take board.erase_size contents) d' in
      let rest =
        write_from fuel clusters (clusters (c - 1)) (drop board.erase_size contents)
          (length - board.erase_size) d'' in
      if length == 0
      then some (done, d)
      else if not ok
      then some (eio, d')
      else if leb board.erase_size length
      then if written then rest else some (eio, d'')
      else write_tail (suc length) offset contents length d'

  -- `FlashFSInternalWrite`, with fuel for its loop
  unfoldable pub internal_write : ℕ → FileTable → FileEntry → List ℕ → D → Option (Code × D)
  internal_write fuel t e contents d =
      write_from fuel t.cluster_table e.first_cluster contents e.size d

  -- what FlashFSFileCreate does with a free entry
  unfoldable pub create_at :
      ℕ → FileTable → ℕ → FileEntry → List ℕ → List ℕ → ℕ → D → Option (Code × FlashFs D)
  create_at fuel t i e name contents length d =
      let (code, a) = build_cluster_list board length (claim_of t 0) in
      let named = record e { name = take max_file_name_length name } in
      let sized : FileEntry = record {
        size = length % 65536;
        first_cluster = a.first;
        name = take max_file_name_length name;
      } in
      let t' = with_claim t i sized a in
      if is_done code
      then with_flash t' (internal_write fuel t' sized contents d)
      else some (code, record { table = some (with_claim t i named a); flash = d })

  -- `FlashFSFileCreate`, for contents other than NULL
  unfoldable pub file_create : ℕ → List ℕ → List ℕ → ℕ → FlashFs D → Option (Code × FlashFs D)
  file_create fuel name contents length fs = elim fs.table [
    | none ↦ some (enodev, fs)
    | some t ↦
        if length == 0
        then some (einval, fs)
        else if ltb t.free_size length
        then some (enospc, fs)
        else if is_done (internal_file_find name t).0
        then some (eexist, fs)
        else elim (free_entry 0 t.file_entries) [
          | none ↦ some (enfile, fs)
          | some i ↦ elim (get_elem? t.file_entries i) [
            | none ↦ some (enfile, fs)
            | some e ↦ create_at fuel t i e name contents length fs.flash
          ]
        ]
  ]
