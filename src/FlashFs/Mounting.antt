-- ===== src/FlashFs/Mounting.antt =====
-- The file table in the flash: FlashFSFormat and FlashFSUnmount store it, FlashFSMount reads it.
use common_lib.Prelude.{
  ℕ, zero, suc, ◌+◌, ◌*◌, ◌≤◌, ◌≡◌, ◌==◌, refl, ap, ◌∙◌, sym, arith, List, true, false, Option,
  some, none, length, ltb, replicate,
}
use common_lib.FlashFs.Device.{IsFlash, bytes_from}
use common_lib.FlashFs.Files.{Flash, FlashFs}
use common_lib.FlashFs.Volume.{
  file_bytes, validate_from, validate_fat, checked, mount, sync, unmount, format, empty_table,
  empty_entry,
}
use common_lib.FlashFs.{Code, done, Board, file_entry_count, max_free_size, FileTable}

-- the entries and the clusters of a formatted table
validate_from-empty :
    (board : Board) (fuel n i free used : ℕ)
    → validate_from board fuel (λ c. 0) i (replicate n empty_entry) free used
      ≡ some (some (free + n * board.erase_size, used))
unfolding validate_from file_bytes
validate_from-empty board fuel zero i free used =
    ap (λ x. some (some (x, used))) (plus free board.erase_size)
  where
    plus : (free e : ℕ) → free ≡ free + 0 * e
    plus free e = omega arith
validate_from-empty board fuel (suc n) i free used =
    rw (plus used) (validate_from-empty board fuel n (i + 1) (free + board.erase_size) used)
    ∙ ap (λ x. some (some (x, used))) (times free n board.erase_size)
  where
    plus : (free : ℕ) → free + 0 ≡ free
    plus free = omega arith

    times : (f n e : ℕ) → f + e + n * e ≡ f + suc n * e
    times f n e = grind arith

-- A formatted table passes FlashFSValidateFAT.
validate_fat-empty :
    (board : Board) (fuel : ℕ)
    → file_entry_count board * board.erase_size ≡ max_free_size board
    → validate_fat board fuel (empty_table board) ≡ some done
unfolding validate_fat
validate_fat-empty board fuel whole =
    rw
      (not_over, validate_from-empty board fuel (file_entry_count board) 0 0 0, free_same, sum_same)
      refl
  where
    not_over : ltb (max_free_size board) (max_free_size board) ≡ false
    not_over = ground arith

    free_same : (max_free_size board == 0 + file_entry_count board * board.erase_size) ≡ true
    free_same = ground (arith, whole)

    sum_same : (0 + (0 + file_entry_count board * board.erase_size) == max_free_size board) ≡ true
    sum_same = ground (arith, whole)

-- `to_bytes` and `of_bytes` keep the table, in `table_bytes` bytes.
pub record IsLaidOut (to_bytes : FileTable → List ℕ) (of_bytes : List ℕ → FileTable)
    (table_bytes : ℕ) (t : FileTable) : Type 0 where
  pub sized : length (to_bytes t) ≡ table_bytes
  pub kept : of_bytes (to_bytes t) ≡ t

module _ {D : Type 0} (board : Board) (ops : Flash D) (byte_at : D → ℕ → ℕ)
    (flash : IsFlash board ops byte_at) (to_bytes : FileTable → List ℕ)
    (of_bytes : List ℕ → FileTable) (table_bytes fuel : ℕ)
    (one_cluster : table_bytes ≤ board.erase_size) (enough : board.erase_size ≤ board.fs_size) where
  -- the flash after FlashFSSync
  abbrev erased : D → D
  erased d = (ops.erase 0 board.erase_size d).0

  abbrev stored : FileTable → D → D
  stored t d = (ops.write 0 (to_bytes t) (erased d)).0

  syncs :
      (t : FileTable) (d : D)
      → IsLaidOut to_bytes of_bytes table_bytes t
      → sync board ops to_bytes of_bytes table_bytes (record { table = some t; flash = d })
        ≡ (done, record { table = some t; flash = stored t d })
  unfolding sync
  syncs t d laid =
      rw
        (
          flash.erase_ok d 0 board.erase_size (omega (arith, enough)),
          flash.write_ok (erased d) 0 (to_bytes t) (omega (arith, laid.sized)),
        )
        refl

  reads :
      (t : FileTable) (d : D)
      → IsLaidOut to_bytes of_bytes table_bytes t
      → ops.read 0 table_bytes (stored t d) ≡ some (to_bytes t)
  reads t d laid =
      flash.read_lem (stored t d) 0 table_bytes (omega arith)
      ∙ ap some (
          ap (bytes_from byte_at (stored t d) 0) (sym (laid.sized))
          ∙ flash.written (erased d) 0 (to_bytes t) (omega (arith, laid.sized)) (λ a h k.
            flash.erased d 0 board.erase_size (omega (arith, enough)) a h
              (omega (arith, laid.sized))))

  mounts :
      (t : FileTable) (d : D)
      → IsLaidOut to_bytes of_bytes table_bytes t
      → validate_fat board fuel t ≡ some done
      → mount board ops to_bytes of_bytes table_bytes fuel true
          (record { table = none; flash = stored t d })
        ≡ some (done, record { table = some t; flash = stored t d })
  unfolding mount
  mounts t d laid valid =
      rw (reads t d laid) refl
      ∙ ap
          (λ (u : FileTable).
            checked board ops to_bytes of_bytes table_bytes u unmounted (validate_fat board fuel u))
          (laid.kept)
      ∙ ap (λ code. checked board ops to_bytes of_bytes table_bytes t unmounted code) valid
    where
      unmounted : FlashFs D
      unmounted = record { table = none; flash = stored t d }

  -- A table that the layout keeps, that fits in one cluster, and that FlashFSValidateFAT accepts:
  -- FlashFSUnmount stores it with 0, and FlashFSMount with memory then ends with 0 and the same table.
  pub unmount-mount :
      (t : FileTable) (d : D)
      → IsLaidOut to_bytes of_bytes table_bytes t
      → validate_fat board fuel t ≡ some done
      → (fs : FlashFs D) × (unmount board ops to_bytes of_bytes table_bytes
            (record { table = some t; flash = d })
          ≡ (done, fs))
        × (fs.table ≡ none)
        × (mount board ops to_bytes of_bytes table_bytes fuel true fs
            ≡ some (done, record { table = some t; flash = fs.flash }))
  unfolding unmount
  unmount-mount t d laid valid = (
    record { table = none; flash = stored t d },
    ap (λ (r : Code × FlashFs D). (r.0, record { table = none; flash = r.1.flash }))
        (syncs t d laid),
    refl,
    mounts t d laid valid,
  )

  -- On a flash of whole clusters, with a layout that keeps the empty table in one cluster:
  -- FlashFSFormat with memory ends with 0, whatever was mounted, and once `data` is NULL again
  -- FlashFSMount accepts what it stored.
  pub format-mount :
      (fs : FlashFs D)
      → IsLaidOut to_bytes of_bytes table_bytes (empty_table board)
      → file_entry_count board * board.erase_size ≡ max_free_size board
      → (fs' : FlashFs D) × (format board ops to_bytes of_bytes table_bytes true fs ≡ (done, fs'))
        × (fs'.table ≡ some (empty_table board))
        × (mount board ops to_bytes of_bytes table_bytes fuel true (record fs' { table = none })
            ≡ some (done, fs'))
  unfolding format
  format-mount fs laid whole = (
    record { table = some (empty_table board); flash = stored (empty_table board) fs.flash },
    formats fs.table,
    refl,
    mounts (empty_table board) fs.flash laid (validate_fat-empty board fuel whole),
  )
    where
      formats :
          (t : Option FileTable)
          → format board ops to_bytes of_bytes table_bytes true
              (record { table = t; flash = fs.flash })
            ≡ (
              done,
              record {
                table = some (empty_table board);
                flash = stored (empty_table board) fs.flash;
              },
            )
      formats none = syncs (empty_table board) fs.flash laid
      formats (some t) = syncs (empty_table board) fs.flash laid
