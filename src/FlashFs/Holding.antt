-- ===== src/FlashFs/Holding.antt =====
-- Files in a file system, and FlashFSFileRead on them.
use mathlib.Core.Path.{subst}
use native.Mathlib.Nat.{div-mul-le_self, le-div_iff_mul-le}
use common_lib.Prelude.{
  ℕ, zero, suc, ◌+◌, ◌*◌, ◌/◌, ◌≤◌, ◌<◌, ◌≡◌, ◌==◌, refl, sym, arith, List, [], ◌∷◌, false, some,
  length, set, get_elem?,
}
use common_lib.FlashFs.Clusters.{Leads, Covers, Leads-ne-zero}
use common_lib.FlashFs.Device.{IsFlash}
use common_lib.FlashFs.Tail.{times}
use common_lib.FlashFs.Save.{Holds}
use common_lib.FlashFs.Fetch.{read_from-Holds}
use common_lib.FlashFs.Files.{Flash}
use common_lib.FlashFs.Access.{file_read}
use common_lib.FlashFs.{done, Board, file_entry_count, fat_end_cluster, FileEntry, FileTable}

pub set-found :
    (xs : List FileEntry) (i : ℕ) (x v : FileEntry)
    → get_elem? xs i ≡ some x
    → get_elem? (set xs i v) i ≡ some v
set-found [] i x v h = absurd (cc)
set-found (y ∷ xs) zero x v h = refl
set-found (y ∷ xs) (suc i) x v h = set-found xs i x v h

-- the sizes in board.h: whole parts in a cluster, and no more clusters than a byte can count below
-- FAT_END_CLUSTER
pub record IsBoard (board : Board) : Type 0 where
  pub part_count : ℕ
  pub whole : board.erase_size ≡ times part_count board.program_size
  pub parts : 0 < board.program_size
  pub sized : 0 < board.erase_size
  pub enough : board.erase_size ≤ board.fs_size
  pub few : file_entry_count board < fat_end_cluster

module _ (board : Board) (b : IsBoard board) where
  pub within :
      (x : ℕ) → x ≤ file_entry_count board → x * board.erase_size + board.erase_size ≤ board.fs_size
  within x h = omega (
    arith,
    div-mul-le_self board.fs_size board.erase_size,
    scaled (x + 1) (board.fs_size / board.erase_size) board.erase_size (omega (arith, one)),
  )
    where
      one : 1 ≤ board.fs_size / board.erase_size
      one = (le-div_iff_mul-le b.sized).1 (omega arith)

      scaled : (p q r : ℕ) → p ≤ q → p * r ≤ q * r
      scaled p q r k = grind arith

module _ {D : Type 0} (board : Board) (b : IsBoard board) (ops : Flash D) (byte_at : D → ℕ → ℕ)
    (flash : IsFlash board ops byte_at) where
  -- An entry of the table has a list of clusters, which hold its contents.
  pub record IsFile (t : FileTable) (d : D) (id : ℕ) (cs contents : List ℕ) : Type 0 where
    pub entry : FileEntry
    pub found : get_elem? t.file_entries id ≡ some entry
    pub size_is : entry.size ≡ length contents
    pub some_bytes : 0 < length contents
    pub leads : Leads (file_entry_count board) t.cluster_table entry.first_cluster cs
    pub covers : Covers board.erase_size cs (length contents)
    pub holds : Holds byte_at board.erase_size d cs contents

  pub file_read-IsFile :
      (fuel : ℕ) (t : FileTable) (d : D) (id : ℕ) (cs contents : List ℕ)
      → IsFile t d id cs contents
      → length contents < fuel
      → file_read board ops fuel id (record { table = some t; flash = d }) ≡ some (done, contents)
  unfolding file_read
  file_read-IsFile fuel t d id cs contents f enough =
      rw (f.found, file_read, used)
        (read_from-Holds board ops byte_at flash b.sized (file_entry_count board) (within board b)
          t.cluster_table fuel cs f.entry.first_cluster f.entry.size contents d f.size_is f.leads
          (subst (Covers board.erase_size cs) (sym f.size_is) f.covers) f.holds
          (omega (arith, f.size_is)))
    where
      used : (f.entry.first_cluster == 0) ≡ false
      used = ground (
        arith,
        Leads-ne-zero (file_entry_count board) t.cluster_table f.entry.first_cluster cs f.leads,
      )
