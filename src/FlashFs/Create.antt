-- ===== src/FlashFs/Create.antt =====
-- FlashFSFileCreate.
use mathlib.Core.Path.{subst}
use common_lib.Prelude.{
  ℕ, ◌+◌, ◌-◌, ◌*◌, ◌%◌, ◌≤◌, ◌<◌, ◌≡◌, ◌≢◌, ◌==◌, ltb, refl, ap, ◌∙◌, sym, arith, List, [], ◌∷◌,
  true, false, some, none, length, length-take, take, drop, get_elem?, get_elem?-set_ne,
}
use common_lib.FlashFs.Clusters.{
  Leads, Absent, room, AllDiffer-of_Rising, Leads-ne-zero, Leads-same,
}
use common_lib.FlashFs.Build.{First, build-First}
use common_lib.FlashFs.Device.{IsFlash, Stores-same}
use common_lib.FlashFs.Tail.{take_long}
use common_lib.FlashFs.Save.{Holds, Saved, write_from-Saved}
use common_lib.FlashFs.Files.{
  Flash, write_from, FlashFs, free_entry, claim_of, with_claim, create_at, file_create,
  internal_write,
}
use common_lib.FlashFs.Access.{file_read, find_file}
use common_lib.FlashFs.{
  Code, done, Board, file_entry_count, max_file_name_length, FileEntry, FileTable, same_name,
  bad_name, find_from, internal_file_find, Claim, build_cluster_list,
}
use common_lib.FlashFs.Holding.{IsBoard, within, IsFile, file_read-IsFile, set-found}
use common_lib.FlashFs.Entries.{
  same_name_refl, free_entry-found, find_from-set, find_file-found, Absent-of_AllFree,
}

module _ {D : Type 0} (board : Board) (b : IsBoard board) (ops : Flash D) (byte_at : D → ℕ → ℕ)
    (flash : IsFlash board ops byte_at) (fuel : ℕ) (t : FileTable) (d : D) (name contents : List ℕ)
    (i : ℕ)
    (counted : t.free_size ≡ room board.erase_size t.cluster_table (file_entry_count board) 0)
    (narrow : t.free_size < 4294967296) (good : bad_name name ≡ false)
    (unknown : find_from 0 name t.file_entries ≡ none)
    (free_at : free_entry 0 t.file_entries ≡ some i) (some_bytes : 0 < length contents)
    (fits : length contents ≤ t.free_size) (short : length contents < 65536)
    (enough : length contents < fuel) where
  abbrev n : ℕ
  n = file_entry_count board

  old : (e : FileEntry) × (get_elem? t.file_entries i ≡ some e) × (e.first_cluster ≡ 0)
  old =
      let r = free_entry-found 0 t.file_entries i free_at in
      let at_i : i - 0 ≡ i = omega arith in
      (r.0, subst (λ j. get_elem? t.file_entries j ≡ some r.0) at_i r.1, r.2)

  built : Code × Claim
  built = build_cluster_list board (length contents) (claim_of t 0)

  listed : First board n b.few b.sized n 0 (length contents) (claim_of t 0) built
  unfolding built build_cluster_list
  listed =
      build-First board n b.few b.sized n 0 0 (length contents) (claim_of t 0) refl (omega arith)
        some_bytes (omega (arith, counted)) (omega (arith, counted)) narrow

  abbrev sized : FileEntry
  sized = record {
    size = length contents % 65536;
    first_cluster = built.1.first;
    name = take max_file_name_length name;
  }

  abbrev table : FileTable
  table = with_claim t i sized built.1

  saved :
      Saved board ops byte_at flash b.parts b.sized n b.part_count b.whole
        (within board b)
        built.1.clusters
        (write_from board ops fuel built.1.clusters built.1.first contents (length contents) d)
        d
        listed.cs
        contents
  saved =
      write_from-Saved board ops byte_at flash b.parts b.sized n b.part_count b.whole
        (within board b) built.1.clusters fuel listed.cs built.1.first (length contents) contents d
        refl listed.leads (AllDiffer-of_Rising n 1 listed.cs listed.rising) listed.covers enough

  abbrev created : FlashFs D
  created = record { table = some table; flash = saved.after }

  size_kept : length contents % 65536 ≡ length contents
  size_kept = omega arith

  created_at :
      create_at board ops fuel t i old.0 name contents (length contents) d ≡ some (done, created)
  unfolding create_at internal_write build_cluster_list built saved
  created_at = rw (listed.is_done, size_kept, saved.ends) refl

  ends :
      file_create board ops fuel name contents
        (length contents)
        (record { table = some t; flash = d })
      ≡ some (done, created)
  unfolding file_create internal_file_find
  ends = rw (not_empty, not_full, good, unknown, free_at, old.1) created_at
    where
      not_empty : (length contents == 0) ≡ false
      not_empty = ground arith

      not_full : ltb t.free_size (length contents) ≡ false
      not_full = ground arith

  used : (built.1.first == 0) ≡ false
  used = ground (arith, Leads-ne-zero n built.1.clusters built.1.first listed.cs listed.leads)

  named : same_name name (take max_file_name_length name) ≡ true
  named = rw (take_long max_file_name_length name (ground (arith, good))) (same_name_refl name)

  in_table : get_elem? table.file_entries i ≡ some sized
  in_table = set-found t.file_entries i old.0 sized old.1

  is_file : IsFile board b ops byte_at flash table saved.after i listed.cs contents
  is_file = record {
    entry = sized;
    found = in_table;
    size_is = size_kept;
    some_bytes = some_bytes;
    leads = listed.leads;
    covers = listed.covers;
    holds = saved.holds;
  }

  counted_after : table.free_size ≡ room board.erase_size table.cluster_table n 0
  counted_after = omega (arith, counted, listed.accounts, listed.room_is)

  index_after : internal_file_find name table ≡ (done, some i)
  unfolding internal_file_find
  index_after =
      rw
        (
          good,
          find_from-set 0 name t.file_entries i old.0 sized unknown old.1 used named ∙ ap some plus,
        )
        refl
    where
      plus : 0 + i ≡ i
      plus = omega arith

  found_after :
      find_file name created ≡ (done, some (record { name = []; size = length contents; id = i }))
  found_after =
      find_file-found name table saved.after i sized index_after in_table
      ∙ ap (λ size. (done, some (record { name = []; size = size; id = i }))) size_kept

  -- another file, before and after
  module _ (id : ℕ) (ds bytes : List ℕ) (f : IsFile board b ops byte_at flash t d id ds bytes) where
    f_used : f.entry.first_cluster ≢ 0
    f_used = Leads-ne-zero n t.cluster_table f.entry.first_cluster ds f.leads

    other_id : i ≢ id
    other_id e = f_used (sym (ap (λ (x : FileEntry). x.first_cluster) same) ∙ old.2)
      where
        same : old.0 ≡ f.entry
        same = cc (old.1, f.found, ap (λ (j : ℕ). get_elem? t.file_entries j) e)

    kept-Leads : Leads n built.1.clusters f.entry.first_cluster ds
    kept-Leads =
        Leads-same n t.cluster_table built.1.clusters f.entry.first_cluster ds
          (λ c low high used.
            listed.kept (c - 1)
              (Absent-of_AllFree t.cluster_table (c - 1) listed.cs used listed.were_free))
          b.few f.leads

    kept-Holds :
        (c : ℕ) (l rest : List ℕ)
        → Leads n t.cluster_table c l
        → Holds byte_at board.erase_size d l rest
        → Holds byte_at board.erase_size saved.after l rest
    kept-Holds c [] rest l h = h
    kept-Holds c (x ∷ l) rest (_, low, high, tail) h = (
      Stores-same byte_at d saved.after (x * board.erase_size) (take board.erase_size rest)
          (λ a p q. saved.else_same x absent a p (omega (arith, length-take board.erase_size rest)))
          h.0,
      kept-Holds (t.cluster_table (x - 1)) l (drop board.erase_size rest) tail h.1,
    )
      where
        back : x - 1 + 1 ≡ x
        back = omega arith

        absent : Absent x listed.cs
        absent =
            subst (λ y. Absent y listed.cs) back
              (Absent-of_AllFree t.cluster_table (x - 1) listed.cs
                (Leads-ne-zero n t.cluster_table (t.cluster_table (x - 1)) l tail) listed.were_free)

    kept-IsFile : IsFile board b ops byte_at flash table saved.after id ds bytes
    kept-IsFile = record {
      entry = f.entry;
      found = get_elem?-set_ne t.file_entries sized other_id ∙ f.found;
      size_is = f.size_is;
      some_bytes = f.some_bytes;
      leads = kept-Leads;
      covers = f.covers;
      holds = kept-Holds f.entry.first_cluster ds bytes f.leads f.holds;
    }

    -- Under the conditions of the table, the name and the bytes under which a file is created and read
    -- back, FlashFSFileCreate ends with 0 and leaves another file, of whatever entry, with its list of clusters and with its contents in the flash.
    pub file_create-keeps :
        (t' : FileTable) × (d' : D) × (file_create board ops fuel name contents
            (length contents)
            (record { table = some t; flash = d })
          ≡ some (done, record { table = some t'; flash = d' }))
        × IsFile board b ops byte_at flash t' d' id ds bytes
    file_create-keeps = (table, saved.after, ends, kept-IsFile)

  -- In a table whose free_size is the bytes of its free clusters, below 2 ^ 32, and not less than those
  -- of the file, with a free entry and no file of the name, FlashFSFileCreate of a name of 1 to 13
  -- characters with 1 to 65535 bytes, and fuel for more rounds than bytes, ends with 0; then FlashFSFindFile finds the entry under the name, with the size, FlashFSFileRead gives the
  -- bytes, and the table still accounts for its free clusters.
  pub file_create-file_read :
      (t' : FileTable) × (d' : D) × (file_create board ops fuel name contents
          (length contents)
          (record { table = some t; flash = d })
        ≡ some (done, record { table = some t'; flash = d' }))
      × (find_file name (record { table = some t'; flash = d' })
          ≡ (done, some (record { name = []; size = length contents; id = i })))
      × (file_read board ops fuel i (record { table = some t'; flash = d' })
          ≡ some (done, contents))
      × (t'.free_size ≡ room board.erase_size t'.cluster_table (file_entry_count board) 0)
  file_create-file_read = (
    table,
    saved.after,
    ends,
    found_after,
    file_read-IsFile board b ops byte_at flash fuel table saved.after i listed.cs contents is_file
        enough,
    counted_after,
  )
