-- ===== src/FlashFs/Tests.antt =====
-- A flash in memory, and the theorems about it.
use common_lib.Prelude.{
  ℕ, ◌+◌, ◌≤◌, ◌<◌, ◌≡◌, ◌==◌, ◌⊎◌, inl, refl, ap₂, ◌∙◌, arith, List, [], ◌∷◌, true, false, some,
  none, if◌then◌else◌, length, ltb, leb, ◌&&◌,
}
use common_lib.FlashFs.Device.{IsFlash, Stores, bytes_from, bytes_from-same}
use common_lib.FlashFs.Files.{Flash, FlashFs, free_entry, file_create}
use common_lib.FlashFs.Access.{find_file, file_read, file_write, file_delete}
use common_lib.FlashFs.Volume.{validate_fat, mount, unmount, format, empty_table}
use common_lib.FlashFs.Clusters.{room}
use common_lib.FlashFs.Holding.{IsBoard, IsFile}
use common_lib.FlashFs.Create.{file_create-file_read, file_create-keeps}
use common_lib.FlashFs.Rewrite.{file_write-file_read, file_write-keeps}
use common_lib.FlashFs.Delete.{file_delete-frees, file_delete-keeps}
use common_lib.FlashFs.Loops.{IsLoop, validate_fat-IsLoop}
use common_lib.FlashFs.Mounting.{unmount-mount, format-mount}
use common_lib.FlashFs.{done, einval, Board, FileEntry, FileTable, find_from, internal_file_find}

-- four clusters of four bytes, and one for the table
abbrev small : Board
small = record { erase_size = 4; program_size = 2; fs_size = 20 }

abbrev Ram : Type 0
Ram = ℕ → ℕ

abbrev at : Ram → ℕ → ℕ
at d a = d a

abbrev stored : ℕ → List ℕ → Ram → Ram
stored o [] d a = d a
stored o (x ∷ xs) d a = if a == o then x else stored (o + 1) xs d a

abbrev blank : ℕ → ℕ → Ram → Ram
blank o n d a = if leb o a && ltb a (o + n) then 0xff else d a

abbrev ram : Flash Ram
ram = record {
  read = λ o n d. some (bytes_from at d o n);
  write = λ o bytes d. (stored o bytes d, true);
  erase = λ o n d. (blank o n d, true);
}

stored-reads : (o : ℕ) (bytes : List ℕ) (d : Ram) → Stores at (stored o bytes d) o bytes
stored-reads o [] d = refl
stored-reads o (x ∷ xs) d =
    ap₂ (λ (y : ℕ) (ys : List ℕ). y ∷ ys) head
      (bytes_from-same at (stored (o + 1) xs d) (stored o (x ∷ xs) d) (o + 1) (length xs)
          (λ a h k. ground (arith, h))
        ∙ stored-reads (o + 1) xs d)
  where
    head : stored o (x ∷ xs) d o ≡ x
    head = ground arith

stored-else :
    (o : ℕ) (bytes : List ℕ) (d : Ram) (a : ℕ)
    → (a < o) ⊎ (o + length bytes ≤ a)
    → stored o bytes d a ≡ d a
stored-else o [] d a h = refl
stored-else o (x ∷ xs) d a h = rw differs (stored-else (o + 1) xs d a further)
  where
    differs : (a == o) ≡ false
    differs = ground (arith, h)

    further : (a < o + 1) ⊎ (o + 1 + length xs ≤ a)
    further = ground (arith, h)

ram-IsFlash : (board : Board) → IsFlash board ram at
ram-IsFlash board = record {
  erase_ok = λ d o n h. refl;
  erased = λ d o n h a low high. ground (arith, low, high);
  erase_else = λ d o n a h. ground (arith, h);
  write_ok = λ d o bytes h. refl;
  written = λ d o bytes h e. stored-reads o bytes d;
  write_else = λ d o bytes a h. stored-else o bytes d a h;
  read_lem = λ d o n h. refl;
}

small-IsBoard : IsBoard small
small-IsBoard = record {
  part_count = 2;
  whole = refl;
  parts = omega arith;
  sized = omega arith;
  enough = omega arith;
  few = omega arith;
}

abbrev no_file : FileEntry
no_file = record { size = 0; first_cluster = 0; name = [] }

-- a file of six bytes in the clusters 1 and 3
abbrev one_file : FileTable
one_file = record {
  file_entries =
      record { size = 6; first_cluster = 1; name = 97 ∷ [] } ∷ no_file ∷ no_file ∷ no_file ∷ [];
  free_size = 8;
  cluster_table = λ i. if i == 0 then 3 else if i == 2 then 0xff else 0;
}

-- a file of five bytes in the clusters 2 and 4 too
abbrev two_files : FileTable
two_files = record {
  file_entries =
      record { size = 6; first_cluster = 1; name = 97 ∷ [] }
      ∷ record { size = 5; first_cluster = 2; name = 98 ∷ [] }
      ∷ no_file
      ∷ no_file
      ∷ [];
  free_size = 0;
  cluster_table = λ i. if i == 0 then 3 else if i == 1 then 4 else 0xff;
}

-- the bytes 10 to 15 in the clusters 1 and 3, and 20 to 24 in 2 and 4
abbrev bytes_at : Ram
bytes_at a =
    if ltb a 8 then a + 6 else if ltb a 12 then a + 12 else if ltb a 16 then a + 2 else a + 8

abbrev six_bytes : List ℕ
six_bytes = 10 ∷ 11 ∷ 12 ∷ 13 ∷ 14 ∷ 15 ∷ []

abbrev five_bytes : List ℕ
five_bytes = 20 ∷ 21 ∷ 22 ∷ 23 ∷ 24 ∷ []

six_bytes-IsFile :
    IsFile small small-IsBoard ram at (ram-IsFlash small) one_file bytes_at 0 (1 ∷ 3 ∷ []) six_bytes
six_bytes-IsFile = record {
  entry = record { size = 6; first_cluster = 1; name = 97 ∷ [] };
  found = refl;
  size_is = refl;
  some_bytes = omega arith;
  leads = (refl, omega arith, omega arith, (refl, omega arith, omega arith, refl));
  covers = (omega arith, (omega arith, refl));
  holds = (refl, (refl, refl));
}

first-IsFile :
    IsFile small small-IsBoard ram at
      (ram-IsFlash small)
      two_files
      bytes_at
      0
      (1 ∷ 3 ∷ [])
      six_bytes
first-IsFile = record {
  entry = record { size = 6; first_cluster = 1; name = 97 ∷ [] };
  found = refl;
  size_is = refl;
  some_bytes = omega arith;
  leads = (refl, omega arith, omega arith, (refl, omega arith, omega arith, refl));
  covers = (omega arith, (omega arith, refl));
  holds = (refl, (refl, refl));
}

second-IsFile :
    IsFile small small-IsBoard ram at
      (ram-IsFlash small)
      two_files
      bytes_at
      1
      (2 ∷ 4 ∷ [])
      five_bytes
second-IsFile = record {
  entry = record { size = 5; first_cluster = 2; name = 98 ∷ [] };
  found = refl;
  size_is = refl;
  some_bytes = omega arith;
  leads = (refl, omega arith, omega arith, (refl, omega arith, omega arith, refl));
  covers = (omega arith, (omega arith, refl));
  holds = (refl, (refl, refl));
}

file_create-file_read_example :
    (t' : FileTable) × (d' : Ram) × (file_create small ram 6
        (98 ∷ [])
        five_bytes
        5
        (record { table = some one_file; flash = bytes_at })
      ≡ some (done, record { table = some t'; flash = d' }))
    × (find_file (98 ∷ []) (record { table = some t'; flash = d' })
        ≡ (done, some (record { name = []; size = 5; id = 1 })))
    × (file_read small ram 6 1 (record { table = some t'; flash = d' }) ≡ some (done, five_bytes))
    × (t'.free_size ≡ room 4 t'.cluster_table 4 0)
unfolding find_from free_entry
file_create-file_read_example =
    file_create-file_read small small-IsBoard ram at (ram-IsFlash small) 6 one_file bytes_at
      (98 ∷ []) five_bytes 1 refl (omega arith) refl refl refl (omega arith) (omega arith)
      (omega arith) (omega arith)

file_create-keeps_example :
    (t' : FileTable) × (d' : Ram) × (file_create small ram 6
        (98 ∷ [])
        five_bytes
        5
        (record { table = some one_file; flash = bytes_at })
      ≡ some (done, record { table = some t'; flash = d' }))
    × IsFile small small-IsBoard ram at (ram-IsFlash small) t' d' 0 (1 ∷ 3 ∷ []) six_bytes
unfolding find_from free_entry
file_create-keeps_example =
    file_create-keeps small small-IsBoard ram at (ram-IsFlash small) 6 one_file bytes_at (98 ∷ [])
      five_bytes 1 refl (omega arith) refl refl refl (omega arith) (omega arith) (omega arith)
      (omega arith) 0 (1 ∷ 3 ∷ []) six_bytes six_bytes-IsFile

file_delete-frees_example :
    (t' : FileTable) × (file_delete small ram 3
        (98 ∷ [])
        (record { table = some two_files; flash = bytes_at })
      ≡ some (done, record { table = some t'; flash = bytes_at }))
    × (t'.free_size ≡ 8)
    × (room 4 t'.cluster_table 4 0 ≡ 8)
    × (file_read small ram 3 1 (record { table = some t'; flash = bytes_at }) ≡ some (einval, []))
unfolding internal_file_find
file_delete-frees_example =
    file_delete-frees small small-IsBoard ram at (ram-IsFlash small) 3 two_files bytes_at (98 ∷ [])
      five_bytes 1 (2 ∷ 4 ∷ []) second-IsFile refl (omega arith) (omega arith)

file_delete-keeps_example :
    (t' : FileTable) × (file_delete small ram 3
        (98 ∷ [])
        (record { table = some two_files; flash = bytes_at })
      ≡ some (done, record { table = some t'; flash = bytes_at }))
    × IsFile small small-IsBoard ram at (ram-IsFlash small) t' bytes_at 0 (1 ∷ 3 ∷ []) six_bytes
unfolding internal_file_find
file_delete-keeps_example =
    file_delete-keeps small small-IsBoard ram at (ram-IsFlash small) 3 two_files bytes_at (98 ∷ [])
      five_bytes 1 (2 ∷ 4 ∷ []) second-IsFile refl (omega arith) (omega arith) 0 (1 ∷ 3 ∷ [])
      six_bytes (omega arith) first-IsFile
      ((omega arith, (omega arith, tt)), ((omega arith, (omega arith, tt)), tt))

abbrev seven_bytes : List ℕ
seven_bytes = 30 ∷ 31 ∷ 32 ∷ 33 ∷ 34 ∷ 35 ∷ 36 ∷ []

file_write-file_read_example :
    (t' : FileTable) × (d' : Ram) × (file_write small ram 8
        (98 ∷ [])
        seven_bytes
        7
        (record { table = some two_files; flash = bytes_at })
      ≡ some (done, record { table = some t'; flash = d' }))
    × (file_read small ram 8 1 (record { table = some t'; flash = d' }) ≡ some (done, seven_bytes))
    × (t'.free_size ≡ 0)
    × (t'.cluster_table ≡ two_files.cluster_table)
unfolding internal_file_find
file_write-file_read_example =
    file_write-file_read small small-IsBoard ram at (ram-IsFlash small) 8 two_files bytes_at
      (98 ∷ []) five_bytes seven_bytes 1 (2 ∷ 4 ∷ []) second-IsFile refl (omega arith) (omega arith)
      (omega arith, (omega arith, refl)) (omega arith)

file_write-keeps_example :
    (t' : FileTable) × (d' : Ram) × (file_write small ram 8
        (98 ∷ [])
        seven_bytes
        7
        (record { table = some two_files; flash = bytes_at })
      ≡ some (done, record { table = some t'; flash = d' }))
    × IsFile small small-IsBoard ram at (ram-IsFlash small) t' d' 0 (1 ∷ 3 ∷ []) six_bytes
unfolding internal_file_find
file_write-keeps_example =
    file_write-keeps small small-IsBoard ram at (ram-IsFlash small) 8 two_files bytes_at (98 ∷ [])
      five_bytes seven_bytes 1 (2 ∷ 4 ∷ []) second-IsFile refl (omega arith) (omega arith)
      (omega arith, (omega arith, refl)) (omega arith) 0 (1 ∷ 3 ∷ []) six_bytes (omega arith)
      first-IsFile ((omega arith, (omega arith, tt)), ((omega arith, (omega arith, tt)), tt))

-- a cluster that leads to itself
abbrev circular : ℕ → ℕ
circular i = if i == 1 then 2 else 0

circular-IsLoop : IsLoop small small-IsBoard.few circular (λ c. c ≡ 2)
circular-IsLoop = record {
  in_range = λ c e. (omega (arith, e), omega (arith, e));
  closed = λ c e. ground (arith, e);
}

validate_fat-IsLoop_example :
    validate_fat small 100 (record {
      file_entries =
          record { size = 4; first_cluster = 2; name = 97 ∷ [] } ∷ no_file ∷ no_file ∷ no_file ∷ [];
      free_size = 12;
      cluster_table = circular;
    })
    ≡ none
validate_fat-IsLoop_example =
    validate_fat-IsLoop small small-IsBoard.few circular (λ c. c ≡ 2)
      (record { size = 4; first_cluster = 2; name = 97 ∷ [] }) (no_file ∷ no_file ∷ no_file ∷ []) 12
      100 circular-IsLoop refl (omega arith) (inl (omega arith))

-- a layout that has room for the number of free bytes only
abbrev to_bytes : FileTable → List ℕ
to_bytes t = t.free_size ∷ []

abbrev of_bytes : List ℕ → FileTable
of_bytes [] = empty_table small
of_bytes (x ∷ xs) = if x == 0 then two_files else empty_table small

unmount-mount_example :
    (fs : FlashFs Ram) × (unmount small ram to_bytes of_bytes 1
        (record { table = some two_files; flash = bytes_at })
      ≡ (done, fs))
    × (fs.table ≡ none)
    × (mount small ram to_bytes of_bytes 1 3 true fs
        ≡ some (done, record { table = some two_files; flash = fs.flash }))
unfolding validate_fat
unmount-mount_example =
    unmount-mount small ram at (ram-IsFlash small) to_bytes of_bytes 1 3 (omega arith) (omega arith)
      two_files bytes_at (record { sized = refl; kept = refl }) refl

format-mount_example :
    (fs : FlashFs Ram) × (format small ram to_bytes of_bytes 1 true
        (record { table = none; flash = bytes_at })
      ≡ (done, fs))
    × (fs.table ≡ some (empty_table small))
    × (mount small ram to_bytes of_bytes 1 3 true (record fs { table = none }) ≡ some (done, fs))
format-mount_example =
    format-mount small ram at (ram-IsFlash small) to_bytes of_bytes 1 3 (omega arith) (omega arith)
      (record { table = none; flash = bytes_at }) (record { sized = refl; kept = refl }) refl
