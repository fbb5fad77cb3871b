-- ===== src/FlashFs/Delete.antt =====
-- FlashFSFileDelete.
use common_lib.Prelude.{
  ℕ, zero, suc, ◌+◌, ◌-◌, ◌<◌, ◌≡◌, ◌≢◌, ◌==◌, ◌||◌, refl, ◌∙◌, arith, List, [], ◌∷◌, true, false,
  Option, some, length, ltb, get_elem?-set_ne, add32,
}
use common_lib.FlashFs.Clusters.{Leads, Absent, AllApart, AllDiffer, room, spent, Leads-ne-zero}
use common_lib.FlashFs.Chains.{Leads-AllDiffer, Leads-else, Leads-apart, room-given}
use common_lib.FlashFs.Device.{IsFlash}
use common_lib.FlashFs.Holding.{IsBoard, IsFile, set-found}
use common_lib.FlashFs.Files.{Flash, claim_of, with_claim}
use common_lib.FlashFs.Access.{release_from, file_delete, file_read}
use common_lib.FlashFs.{
  Code, done, einval, Board, file_entry_count, fat_end_cluster, FileEntry, FileTable, set_cluster,
  internal_file_find, Claim,
}

module _ {D : Type 0} (board : Board) (ops : Flash D)
    (few : file_entry_count board < fat_end_cluster) where
  abbrev n : ℕ
  n = file_entry_count board

  record Given (result : Option (Code × Claim)) (a : Claim) (cs : List ℕ) : Type 0 where
    after : Claim
    ends : result ≡ some (done, after)
    first_kept : after.first ≡ a.first
    accounts : after.free ≡ a.free + spent board.erase_size cs
    kept : (j : ℕ) → Absent (j + 1) cs → after.clusters j ≡ a.clusters j
    room_is :
        room board.erase_size after.clusters n 0
        ≡ room board.erase_size a.clusters n 0 + spent board.erase_size cs

  abbrev given : ℕ → Claim → Claim
  given x a = record a {
    clusters = set_cluster a.clusters (x - 1) 0;
    free = add32 a.free board.erase_size;
  }

  release_from-Given :
      (fuel : ℕ) (cs : List ℕ) (c : ℕ) (a : Claim)
      → Leads n a.clusters c cs
      → AllDiffer cs
      → a.free + spent board.erase_size cs < 4294967296
      → length cs < fuel
      → Given (release_from board ops fuel c a) a cs
  unfolding release_from add32
  release_from-Given zero cs c a l f w enough = absurd (omega arith)
  release_from-Given (suc fuel) [] c a l f w enough = rw ended (record {
    after = a;
    ends = refl;
    first_kept = refl;
    accounts = omega arith;
    kept = λ j p. refl;
    room_is = omega arith;
  })
    where
      ended : (c == fat_end_cluster) ≡ true
      ended = ground (arith, l)
  release_from-Given (suc fuel) (x ∷ cs) c a l f w enough =
      let rest : Given (release_from board ops fuel (a.clusters (x - 1)) (given x a)) (given x a)
          cs =
        release_from-Given fuel cs (a.clusters (x - 1)) (given x a)
          (Leads-else n a.clusters x 0 (a.clusters (x - 1)) cs l.1 f.0 l.3) f.1
          (omega (arith, more)) (omega arith) in
      rw (l.0, not_end, in_range)
        (record {
          after = rest.after;
          ends = rest.ends;
          first_kept = rest.first_kept;
          accounts = omega (arith, rest.accounts, more);
          kept = λ j p. rest.kept j p.1 ∙ ground (arith, p.0, l.1);
          room_is = omega (
            arith,
            rest.room_is,
            room-given board.erase_size a.clusters n 0 (x - 1) (omega arith)
                (omega (arith, l.1, l.2)) (Leads-ne-zero n a.clusters (a.clusters (x - 1)) cs l.3),
          );
        })
    where
      not_end : (x == fat_end_cluster) ≡ false
      not_end = ground (arith, l.2, few)

      in_range : (x == 0 || ltb (file_entry_count board) x) ≡ false
      in_range = ground (arith, l.1, l.2)

      more : add32 a.free board.erase_size ≡ a.free + board.erase_size
      more = omega arith

module _ {D : Type 0} (board : Board) (b : IsBoard board) (ops : Flash D) (byte_at : D → ℕ → ℕ)
    (flash : IsFlash board ops byte_at) (fuel : ℕ) (t : FileTable) (d : D) (name contents : List ℕ)
    (id : ℕ) (cs : List ℕ) (file : IsFile board b ops byte_at flash t d id cs contents)
    (named : internal_file_find name t ≡ (done, some id))
    (narrow : t.free_size + spent board.erase_size cs < 4294967296)
    (enough : length cs < fuel) where
  abbrev e : FileEntry
  e = file.entry

  back :
      Given board ops b.few
        (release_from board ops fuel e.first_cluster (claim_of t e.first_cluster))
        (claim_of t e.first_cluster)
        cs
  back =
      release_from-Given board ops b.few fuel cs e.first_cluster (claim_of t e.first_cluster)
        file.leads
        (Leads-AllDiffer (file_entry_count board) b.few t.cluster_table e.first_cluster cs
          file.leads)
        narrow enough

  abbrev table : FileTable
  table = with_claim t id e (record back.after { first = 0 })

  ends :
      file_delete board ops fuel name (record { table = some t; flash = d })
      ≡ some (done, record { table = some table; flash = d })
  unfolding file_delete
  ends = rw (file_delete, named, file.found, back.ends) refl

  gone : file_read board ops fuel id (record { table = some table; flash = d }) ≡ some (einval, [])
  unfolding file_read
  gone =
      rw (file_read, set-found t.file_entries id e (record e { first_cluster = 0 }) file.found) refl

  -- FlashFSFileDelete, on the name of a file and with fuel for more rounds than it has clusters, ends
  -- with 0, if the sum of free_size and the bytes of those clusters is below 2 ^ 32; free_size, and the
  -- bytes in the free clusters too, grow by the bytes of those clusters; the flash is not touched, and FlashFSFileRead of the entry is EINVAL.
  pub file_delete-frees :
      (t' : FileTable) × (file_delete board ops fuel name (record { table = some t; flash = d })
        ≡ some (done, record { table = some t'; flash = d }))
      × (t'.free_size ≡ t.free_size + spent board.erase_size cs)
      × (room board.erase_size t'.cluster_table (file_entry_count board) 0
          ≡ room board.erase_size t.cluster_table (file_entry_count board) 0
            + spent board.erase_size cs)
      × (file_read board ops fuel id (record { table = some t'; flash = d }) ≡ some (einval, []))
  file_delete-frees = (table, ends, back.accounts, back.room_is, gone)

  -- A file that shares no cluster with the one that FlashFSFileDelete removes is left with its list of
  -- clusters and its contents.
  pub file_delete-keeps :
      (other : ℕ) (ds bytes : List ℕ)
      → id ≢ other
      → IsFile board b ops byte_at flash t d other ds bytes
      → AllApart ds cs
      → (t' : FileTable) × (file_delete board ops fuel name (record { table = some t; flash = d })
          ≡ some (done, record { table = some t'; flash = d }))
        × IsFile board b ops byte_at flash t' d other ds bytes
  file_delete-keeps other ds bytes differ f apart = (
    table,
    ends,
    record {
      entry = f.entry;
      found = get_elem?-set_ne t.file_entries (record e { first_cluster = 0 }) differ ∙ f.found;
      size_is = f.size_is;
      some_bytes = f.some_bytes;
      leads =
          Leads-apart (file_entry_count board) t.cluster_table back.after.clusters cs back.kept
            f.entry.first_cluster ds apart f.leads;
      covers = f.covers;
      holds = f.holds;
    },
  )
