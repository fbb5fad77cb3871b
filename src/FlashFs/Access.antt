-- ===== src/FlashFs/Access.antt =====
-- fs/flash_fs.c: finding, reading, writing, deleting and renaming files.
use common_lib.Prelude.{
  ℕ, zero, suc, ◌+◌, ◌-◌, ◌*◌, ◌%◌, ◌==◌, leb, ltb, if◌then◌else◌, ◌||◌, Option, none, some, List,
  [], ◌∷◌, ◌++◌, drop, set, get_elem?, add32, take,
}
use common_lib.FlashFs.{
  Code, done, is_done, enodev, enomem, eio, einval, eexist, enoent, Board, file_entry_count,
  fat_end_cluster, max_file_name_length, FileEntry, FileTable, set_cluster, bad_name,
  internal_file_find, Claim, update_cluster_list,
}
use common_lib.FlashFs.Files.{Flash, FlashFs, internal_write, with_flash, claim_of, with_claim}

pub record FileFind : Type 0 where
  pub name : List ℕ
  pub size : ℕ
  pub id : ℕ

-- the first file among the entries from the one of index `id`
unfoldable pub find_used : ℕ → List FileEntry → Code × Option FileFind
find_used id [] = (enoent, none)
find_used id (e ∷ entries) =
    if e.first_cluster == 0
    then find_used (id + 1) entries
    else (done, some (record { name = take max_file_name_length e.name; size = e.size; id = id }))

-- a file that is gone has no first cluster
abbrev first_after : Code → ℕ → ℕ
first_after done first = 0
first_after _ first = first

module _ {D : Type 0} (board : Board) (ops : Flash D) where
  -- the loop of FlashFSFileDelete
  unfoldable pub release_from : ℕ → ℕ → Claim → Option (Code × Claim)
  unfolding add32
  release_from zero c a = none
  release_from (suc fuel) c a =
      let given = record a {
        clusters = set_cluster a.clusters (c - 1) 0;
        free = add32 a.free board.erase_size;
      } in
      let rest = release_from fuel (a.clusters (c - 1)) given in
      if c == fat_end_cluster
      then some (done, a)
      else if c == 0 || ltb (file_entry_count board) c
      then some (enomem, a)
      else rest

  abbrev released :
      FileTable → ℕ → FileEntry → D → Option (Code × Claim) → Option (Code × FlashFs D)
  released t i e d none = none
  released t i e d (some (code, a)) = some (
    code,
    record {
      table = some (with_claim t i e (record a { first = first_after code a.first }));
      flash = d;
    },
  )

  -- `FlashFSFileDelete`
  unfoldable pub file_delete : ℕ → List ℕ → FlashFs D → Option (Code × FlashFs D)
  unfolding internal_file_find release_from
  file_delete fuel name fs = elim fs.table [
    | none ↦ some (enodev, fs)
    | some t ↦
        let found = internal_file_find name t in
        elim found.1 [
          | none ↦ some (found.0, fs)
          | some i ↦ elim (get_elem? t.file_entries i) [
            | none ↦ some (found.0, fs)
            | some e ↦
                released t i e fs.flash
                  (release_from fuel e.first_cluster (claim_of t e.first_cluster))
          ]
        ]
  ]

  abbrev pub behind : List ℕ → Option (Code × List ℕ) → Option (Code × List ℕ)
  behind bytes none = none
  behind bytes (some (code, rest)) = some (code, bytes ++ rest)

  -- the loop of FlashFSFileRead, with the bytes that it puts into `contents`
  unfoldable pub read_from : ℕ → (ℕ → ℕ) → ℕ → ℕ → D → Option (Code × List ℕ)
  read_from zero clusters cluster size d = none
  read_from (suc fuel) clusters cluster size d =
      let count = if leb size board.erase_size then size else board.erase_size in
      let rest = read_from fuel clusters (clusters (cluster - 1)) (size - count) d in
      if size == 0 then some (done, []) else elim (ops.read (cluster * board.erase_size) count d) [
        | none ↦ some (eio, [])
        | some bytes ↦ behind bytes rest
      ]

  -- `FlashFSFileRead`
  unfoldable pub file_read : ℕ → ℕ → FlashFs D → Option (Code × List ℕ)
  unfolding read_from
  file_read fuel id fs = elim fs.table [
    | none ↦ some (enodev, [])
    | some t ↦ elim (get_elem? t.file_entries id) [
      | none ↦ some (einval, [])
      | some e ↦
          if e.first_cluster == 0
          then some (einval, [])
          else read_from fuel t.cluster_table e.first_cluster e.size fs.flash
    ]
  ]

  -- what FlashFSFileWrite does with the entry
  unfoldable pub write_at :
      ℕ → FileTable → ℕ → FileEntry → List ℕ → ℕ → D → Option (Code × FlashFs D)
  unfolding update_cluster_list internal_write
  write_at fuel t i e contents bytes d =
      let (code, a) = update_cluster_list board e.size bytes (claim_of t e.first_cluster) in
      let sized = record e { size = bytes % 65536 } in
      let t' = with_claim t i sized a in
      if is_done code
      then with_flash t' (internal_write board ops fuel t' sized contents d)
      else some (code, record { table = some (with_claim t i e a); flash = d })

  -- `FlashFSFileWrite`, for contents other than NULL
  unfoldable pub file_write : ℕ → List ℕ → List ℕ → ℕ → FlashFs D → Option (Code × FlashFs D)
  unfolding internal_file_find write_at
  file_write fuel name contents bytes fs = elim fs.table [
    | none ↦ some (enodev, fs)
    | some t ↦
        if bytes == 0
        then some (einval, fs)
        else let found = internal_file_find name t in
          elim found.1 [
            | none ↦ some (found.0, fs)
            | some i ↦ elim (get_elem? t.file_entries i) [
              | none ↦ some (found.0, fs)
              | some e ↦ write_at fuel t i e contents bytes fs.flash
            ]
          ]
  ]

module _ {D : Type 0} where
  -- `FlashFSGetFreeSize`
  unfoldable pub get_free_size : FlashFs D → ℕ
  get_free_size fs = elim fs.table [ none ↦ 0 | some t ↦ t.free_size ]

  -- `FlashFSFindFile`, which leaves `ff->name`
  unfoldable pub find_file : List ℕ → FlashFs D → Code × Option FileFind
  unfolding internal_file_find
  find_file name fs = elim fs.table [
    | none ↦ (enodev, none)
    | some t ↦
        let found = internal_file_find name t in
        elim found.1 [
          | none ↦ (found.0, none)
          | some i ↦ elim (get_elem? t.file_entries i) [
            | none ↦ (found.0, none)
            | some e ↦ (found.0, some (record { name = []; size = e.size; id = i }))
          ]
        ]
  ]

  -- `FlashFSFindFirst`
  unfoldable pub find_first : FlashFs D → Code × Option FileFind
  unfolding find_used
  find_first fs = elim fs.table [ none ↦ (enodev, none) | some t ↦ find_used 0 t.file_entries ]

  -- `FlashFSFindNext`
  unfoldable pub find_next : FileFind → FlashFs D → Code × Option FileFind
  unfolding find_used
  find_next ff fs = elim fs.table [
    | none ↦ (enodev, none)
    | some t ↦ find_used (ff.id + 1) (drop (ff.id + 1) t.file_entries)
  ]

  -- `FlashFSFileRename`
  unfoldable pub file_rename : List ℕ → List ℕ → FlashFs D → Code × FlashFs D
  unfolding internal_file_find
  file_rename name new_name fs = elim fs.table [
    | none ↦ (enodev, fs)
    | some t ↦
        if bad_name new_name
        then (einval, fs)
        else let found = internal_file_find name t in
          elim found.1 [
            | none ↦ (found.0, fs)
            | some i ↦
                if is_done (internal_file_find new_name t).0
                then (eexist, fs)
                else elim (get_elem? t.file_entries i) [
                  | none ↦ (found.0, fs)
                  | some e ↦
                      let renamed = record e { name = take max_file_name_length new_name } in
                      let t' = record t { file_entries = set t.file_entries i renamed } in
                      (done, record fs { table = some t' })
                ]
          ]
  ]
