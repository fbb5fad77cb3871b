-- ===== src/FlashFs.antt =====
-- fs/flash_fs.c: the tables of the file system, names, and lists of clusters. The sizes of the flash
-- come from board.h and are parameters, as are the functions that reach the flash.
pub mod Files
pub mod Access
pub mod Volume
pub mod Clusters
pub mod Link
pub mod Build
pub mod Device
pub mod Tail
pub mod Save
pub mod Fetch
pub mod Holding
pub mod Entries
pub mod Create
pub mod Chains
pub mod Delete
pub mod Loops
pub mod Mounting
pub mod Counts
pub mod Rewrite
mod Tests
use common_lib.Prelude.{
  ℕ, zero, suc, ◌+◌, ◌-◌, ◌*◌, ◌/◌, ◌%◌, ◌==◌, leb, ltb, if◌then◌else◌, Bool, true, false, not,
  ◌&&◌, ◌||◌, Option, none, some, List, [], ◌∷◌, length, take, set, add32, sub32, mul32,
}

-- the codes of errno.h that the functions return, and 0
pub data Code : Type 0 where
  done enodev ebusy enomem eio einval enospc eexist enoent enfile : Code

abbrev pub is_done : Code → Bool
is_done done = true
is_done _ = false

-- FLASH_FS_MINIMUM_ERASE_SIZE, FLASH_FS_MINIMUM_PROGRAM_SIZE and FLASH_FS_SIZE
pub record Board : Type 0 where
  pub erase_size : ℕ
  pub program_size : ℕ
  pub fs_size : ℕ

abbrev pub file_entry_count : Board → ℕ
file_entry_count b = b.fs_size / b.erase_size - 1

abbrev pub max_free_size : Board → ℕ
max_free_size b = b.fs_size - b.erase_size

abbrev pub max_file_name_length : ℕ
max_file_name_length = 13

abbrev pub fat_end_cluster : ℕ
fat_end_cluster = 0xff

-- a name is its characters up to the 0
pub record FileEntry : Type 0 where
  pub size : ℕ
  pub first_cluster : ℕ
  pub name : List ℕ

pub record FileTable : Type 0 where
  pub file_entries : List FileEntry
  pub free_size : ℕ
  pub cluster_table : ℕ → ℕ

abbrev pub set_cluster : (ℕ → ℕ) → ℕ → ℕ → ℕ → ℕ
set_cluster t i v j = if j == i then v else t j

abbrev pub same_name : List ℕ → List ℕ → Bool
same_name [] [] = true
same_name [] (d ∷ ds) = false
same_name (c ∷ cs) [] = false
same_name (c ∷ cs) (d ∷ ds) = c == d && same_name cs ds

abbrev pub bad_name : List ℕ → Bool
bad_name name = length name == 0 || ltb max_file_name_length (length name)

-- the loop of FlashFSInternalFileFind, with the index of the entry
unfoldable pub find_from : ℕ → List ℕ → List FileEntry → Option ℕ
find_from i name [] = none
find_from i name (e ∷ entries) =
    if not (e.first_cluster == 0) && same_name name e.name
    then some i
    else find_from (i + 1) name entries

-- `FlashFSInternalFileFind`
unfoldable pub internal_file_find : List ℕ → FileTable → Code × Option ℕ
unfolding find_from
internal_file_find name t =
    if bad_name name
    then (einval, none)
    else elim (find_from 0 name t.file_entries) [ none ↦ (enoent, none) | some i ↦ (done, some i) ]

-- what the loops over the free clusters change: the first cluster of the file, and the table
pub record Claim : Type 0 where
  pub first : ℕ
  pub clusters : ℕ → ℕ
  pub free : ℕ

module _ (board : Board) where
  -- the loop of FlashFSBuildClusterList, with the rounds that are left
  unfoldable pub build_from : ℕ → ℕ → ℕ → ℕ → Claim → Code × Claim
  unfolding sub32
  build_from zero i last bytes a = (enomem, a)
  build_from (suc rounds) i last bytes a =
      let linked : Claim = record {
        first = if a.first == 0 then i else a.first;
        clusters = if a.first == 0 then a.clusters else set_cluster a.clusters last i;
        free = sub32 a.free board.erase_size;
      } in
      let ended = record linked {
        clusters = set_cluster linked.clusters (i - 1) fat_end_cluster;
      } in
      let next_one = build_from rounds (i + 1) (i - 1) (bytes - board.erase_size) linked in
      let skipped = build_from rounds (i + 1) last bytes a in
      if a.clusters (i - 1) == 0
      then if leb bytes board.erase_size then (done, ended) else next_one
      else skipped

  -- `FlashFSBuildClusterList`
  unfoldable pub build_cluster_list : ℕ → Claim → Code × Claim
  unfolding build_from
  build_cluster_list bytes a = build_from (file_entry_count board) 1 0 bytes a

  -- the loop of FlashFSContinueClusterList
  unfoldable pub continue_from : ℕ → ℕ → ℕ → ℕ → Claim → Code × Claim
  unfolding sub32
  continue_from zero i cluster delta a = (enomem, a)
  continue_from (suc rounds) i cluster delta a =
      let linked = record a {
        clusters = set_cluster a.clusters cluster i;
        free = sub32 a.free board.erase_size;
      } in
      let ended = record linked {
        clusters = set_cluster linked.clusters (i - 1) fat_end_cluster;
      } in
      let next_one = continue_from rounds (i + 1) (i - 1) (sub32 delta 1) linked in
      let skipped = continue_from rounds (i + 1) cluster delta a in
      if a.clusters (i - 1) == 0
      then if sub32 delta 1 == 0 then (done, ended) else next_one
      else skipped

  -- `FlashFSContinueClusterList`
  unfoldable pub continue_cluster_list : ℕ → ℕ → Claim → Code × Claim
  unfolding continue_from
  continue_cluster_list cluster delta a = continue_from (file_entry_count board) 1 cluster delta a

  abbrev pub count_for : ℕ → ℕ
  count_for size = size / board.erase_size + (if size % board.erase_size == 0 then 0 else 1)

  -- the loop that looks for the last cluster, `required` being the rounds left
  unfoldable pub grow_from : ℕ → ℕ → ℕ → ℕ → Claim → Code × Claim
  unfolding continue_cluster_list sub32
  grow_from zero current cluster delta a = (done, a)
  grow_from (suc required) current cluster delta a =
      let further = grow_from required (sub32 current 1) (sub32 (a.clusters cluster) 1) delta a in
      if current == 1 then continue_cluster_list cluster delta a else further

  -- the loop that gives clusters back, `current` being the rounds left
  unfoldable pub shrink_from : ℕ → ℕ → ℕ → Claim → Claim
  unfolding add32 sub32
  shrink_from zero required cluster a = a
  shrink_from (suc current) required cluster a =
      let delta = sub32 (a.clusters cluster) 1 in
      let given = record a {
        clusters = set_cluster a.clusters cluster 0;
        free = add32 a.free board.erase_size;
      } in
      let last = record a { clusters = set_cluster a.clusters cluster fat_end_cluster } in
      shrink_from current (required - 1) delta
        (if required == 0 then given else if required == 1 then last else a)

  -- `FlashFSUpdateClusterList`, for an entry of `size` bytes
  unfoldable pub update_cluster_list : ℕ → ℕ → Claim → Code × Claim
  unfolding grow_from shrink_from mul32 sub32
  update_cluster_list size bytes a =
      let current = count_for size in
      let required = count_for bytes in
      if ltb current required
      then if ltb a.free (mul32 (required - current) board.erase_size)
        then (enospc, a)
        else grow_from required current (sub32 a.first 1) (required - current) a
      else if ltb required current
      then (done, shrink_from current required (sub32 a.first 1) a)
      else (done, a)
