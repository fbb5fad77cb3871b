-- ===== src/FlashFs/Rewrite.antt =====
-- FlashFSFileWrite of as many clusters as the file has.
use common_lib.Prelude.{
  ℕ, ◌%◌, ◌<◌, ◌≡◌, ◌≢◌, ◌==◌, refl, ap, ◌∙◌, sym, arith, List, false, some, length, ltb,
  get_elem?-set_ne,
}
use common_lib.FlashFs.Clusters.{AllApart, Covers}
use common_lib.FlashFs.Chains.{Leads-AllDiffer}
use common_lib.FlashFs.Counts.{count_for-Covers}
use common_lib.FlashFs.Device.{IsFlash}
use common_lib.FlashFs.Save.{Saved, write_from-Saved, Holds-same}
use common_lib.FlashFs.Holding.{IsBoard, within, IsFile, set-found, file_read-IsFile}
use common_lib.FlashFs.Files.{Flash, FlashFs, write_from, internal_write, claim_of, with_claim}
use common_lib.FlashFs.Access.{file_write, write_at, file_read}
use common_lib.FlashFs.{
  done, Board, file_entry_count, FileEntry, FileTable, internal_file_find, update_cluster_list,
  count_for,
}

module _ {D : Type 0} (board : Board) (b : IsBoard board) (ops : Flash D) (byte_at : D → ℕ → ℕ)
    (flash : IsFlash board ops byte_at) (fuel : ℕ) (t : FileTable) (d : D)
    (name former contents : List ℕ) (id : ℕ) (cs : List ℕ)
    (file : IsFile board b ops byte_at flash t d id cs former)
    (named : internal_file_find name t ≡ (done, some id)) (some_bytes : 0 < length contents)
    (short : length contents < 65536) (covers : Covers board.erase_size cs (length contents))
    (enough : length contents < fuel) where
  abbrev n : ℕ
  n = file_entry_count board

  abbrev e : FileEntry
  e = file.entry

  abbrev sized : FileEntry
  sized = record e { size = length contents % 65536 }

  abbrev table : FileTable
  table = with_claim t id sized (claim_of t e.first_cluster)

  saved :
      Saved board ops byte_at flash b.parts b.sized n b.part_count b.whole
        (within board b)
        t.cluster_table
        (write_from board ops fuel t.cluster_table e.first_cluster contents (length contents) d)
        d
        cs
        contents
  saved =
      write_from-Saved board ops byte_at flash b.parts b.sized n b.part_count b.whole
        (within board b) t.cluster_table fuel cs e.first_cluster (length contents) contents d refl
        file.leads (Leads-AllDiffer n b.few t.cluster_table e.first_cluster cs file.leads) covers
        enough

  size_kept : length contents % 65536 ≡ length contents
  size_kept = omega arith

  as_many : count_for board e.size ≡ count_for board (length contents)
  as_many =
      ap (count_for board) file.size_is
      ∙ count_for-Covers board b.sized (length former) cs file.covers
      ∙ sym (count_for-Covers board b.sized (length contents) cs covers)

  updated :
      update_cluster_list board e.size (length contents) (claim_of t e.first_cluster)
      ≡ (done, claim_of t e.first_cluster)
  unfolding update_cluster_list
  updated = rw (as_many, not_less (count_for board (length contents))) refl
    where
      not_less : (k : ℕ) → ltb k k ≡ false
      not_less k = ground arith

  abbrev written : FlashFs D
  written = record { table = some table; flash = saved.after }

  written_at : write_at board ops fuel t id e contents (length contents) d ≡ some (done, written)
  unfolding write_at internal_write
  written_at = rw (write_at, updated, size_kept, saved.ends) refl

  ends :
      file_write board ops fuel name contents
        (length contents)
        (record { table = some t; flash = d })
      ≡ some (done, written)
  unfolding file_write
  ends = rw (file_write, not_empty, named, file.found) written_at
    where
      not_empty : (length contents == 0) ≡ false
      not_empty = ground arith

  is_file : IsFile board b ops byte_at flash table saved.after id cs contents
  is_file = record {
    entry = sized;
    found = set-found t.file_entries id e sized file.found;
    size_is = size_kept;
    some_bytes = some_bytes;
    leads = file.leads;
    covers = covers;
    holds = saved.holds;
  }

  -- FlashFSFileWrite, on the name of a file, with 1 to 65535 bytes, for which the clusters of the file are as many as they
  -- need, and with fuel for more rounds than bytes, ends with 0; then FlashFSFileRead gives the bytes,
  -- and free_size and the lists of clusters are as before.
  pub file_write-file_read :
      (t' : FileTable) × (d' : D) × (file_write board ops fuel name contents
          (length contents)
          (record { table = some t; flash = d })
        ≡ some (done, record { table = some t'; flash = d' }))
      × (file_read board ops fuel id (record { table = some t'; flash = d' })
          ≡ some (done, contents))
      × (t'.free_size ≡ t.free_size)
      × (t'.cluster_table ≡ t.cluster_table)
  file_write-file_read = (
    table,
    saved.after,
    ends,
    file_read-IsFile board b ops byte_at flash fuel table saved.after id cs contents is_file enough,
    refl,
    refl,
  )

  -- On the name of a file, with 1 to 65535 bytes, for which the clusters of the file are as many as they need, and fuel for
  -- more rounds than bytes, FlashFSFileWrite ends with 0 and leaves a file that shares no cluster with
  -- the one that it writes with its list of clusters and its contents.
  pub file_write-keeps :
      (other : ℕ) (ds bytes : List ℕ)
      → id ≢ other
      → IsFile board b ops byte_at flash t d other ds bytes
      → AllApart ds cs
      → (t' : FileTable) × (d' : D) × (file_write board ops fuel name contents
            (length contents)
            (record { table = some t; flash = d })
          ≡ some (done, record { table = some t'; flash = d' }))
        × IsFile board b ops byte_at flash t' d' other ds bytes
  file_write-keeps other ds bytes differ f apart = (
    table,
    saved.after,
    ends,
    record {
      entry = f.entry;
      found = get_elem?-set_ne t.file_entries sized differ ∙ f.found;
      size_is = f.size_is;
      some_bytes = f.some_bytes;
      leads = f.leads;
      covers = f.covers;
      holds =
          Holds-same byte_at board.erase_size d saved.after cs ds bytes saved.else_same apart
            f.holds;
    },
  )
