-- ===== src/FlashFs/Build.antt =====
-- The loop of FlashFSBuildClusterList, from a table with enough free clusters.
use mathlib.Core.Path.{subst}
use common_lib.Prelude.{
  ℕ, zero, suc, ◌+◌, ◌-◌, ◌≤◌, ◌<◌, ◌≡◌, ◌≢◌, ◌==◌, inl, inr, leb, refl, arith, List, [], ◌∷◌,
  Bool-cases, true, false, sub32,
}
use common_lib.FlashFs.Clusters.{
  Leads, Absent, AllFree, Rising, Covers, room, Rising-later, Absent-of_Rising, room-same, spent,
  Leads-ne-zero,
}
use common_lib.FlashFs.{Code, done, Board, Claim, fat_end_cluster, set_cluster, build_from}
use common_lib.FlashFs.Link.{Later, build-Later}

module _ (board : Board) (n : ℕ) (small : n < fat_end_cluster) (sized : 0 < board.erase_size) where
  -- The same for a claim without a first cluster.
  pub record First (rounds k bytes : ℕ) (a : Claim) (result : Code × Claim) : Type 0 where
    pub cs : List ℕ
    pub is_done : result.0 ≡ done
    pub rising : Rising n (k + 1) cs
    pub were_free : AllFree a.clusters cs
    pub covers : Covers board.erase_size cs bytes
    pub leads : Leads n result.1.clusters result.1.first cs
    pub kept : (j : ℕ) → Absent (j + 1) cs → result.1.clusters j ≡ a.clusters j
    pub accounts : result.1.free + spent board.erase_size cs ≡ a.free
    pub room_is :
        room board.erase_size result.1.clusters rounds k + spent board.erase_size cs
        ≡ room board.erase_size a.clusters rounds k

  module _ (rounds k bytes : ℕ) (a : Claim) (b : 0 < bytes) (fits : k + suc rounds ≡ n) where
    First-skip :
        (taken : (a.clusters k == 0) ≡ false) (result : Code × Claim)
        → First rounds (k + 1) bytes a result
        → First (suc rounds) k bytes a result
    First-skip taken result r = record {
      cs = r.cs;
      is_done = r.is_done;
      rising = Rising-later n (k + 1) (k + 1 + 1) r.cs (omega arith) r.rising;
      were_free = r.were_free;
      covers = r.covers;
      leads = r.leads;
      kept = r.kept;
      accounts = r.accounts;
      room_is = ground (
        arith,
        taken,
        r.room_is,
        r.kept k (Absent-of_Rising n (k + 1 + 1) (k + 1) r.cs (omega arith) r.rising),
      );
    }

    abbrev started : Claim
    started = record a { first = k + 1; free = sub32 a.free board.erase_size }

    module _ (is_free : (a.clusters k == 0) ≡ true) (enough : board.erase_size ≤ a.free)
        (w : a.free < 4294967296) where
      started_less : started.free + board.erase_size ≡ a.free
      unfolding sub32
      started_less = omega arith

      First-end :
          leb bytes board.erase_size ≡ true
          → First
              (suc rounds)
              k
              bytes
              a
              (done, record started { clusters = set_cluster a.clusters k fat_end_cluster })
      First-end ends = record {
        cs = (k + 1) ∷ [];
        is_done = refl;
        rising = (omega arith, omega arith, tt);
        were_free = (ground (arith, is_free), tt);
        covers = (b, ground (arith, ends));
        leads = (refl, omega arith, omega arith, ground arith);
        kept = λ j p. ground (arith, p.0);
        accounts = omega (arith, started_less);
        room_is = ground (
          arith,
          is_free,
          room-same board.erase_size a.clusters (set_cluster a.clusters k fat_end_cluster) rounds
              (k + 1) (λ j h. ground (arith, h)),
        );
      }

      First-more :
          (result : Code × Claim)
          → Later board n small sized rounds (k + 1) k (bytes - board.erase_size) started result
          → First (suc rounds) k bytes a result
      First-more result r = record {
        cs = (k + 1) ∷ r.cs;
        is_done = r.is_done;
        rising = (omega arith, omega arith, r.rising);
        were_free = (ground (arith, is_free), r.were_free);
        covers = (b, r.covers);
        leads = (
          r.first_kept,
          omega arith,
          omega arith,
          subst (λ x. Leads n result.1.clusters (result.1.clusters x) r.cs) back r.leads,
        );
        kept = λ j p. r.kept j (other j p.0) p.1;
        accounts = omega (arith, started_less, r.accounts);
        room_is = ground (
          arith,
          is_free,
          r.room_is,
          Leads-ne-zero n result.1.clusters (result.1.clusters k) r.cs r.leads,
        );
      }
        where
          back : k ≡ k + 1 - 1
          back = omega arith

          other : (j : ℕ) → j + 1 ≢ k + 1 → j ≢ k
          other j h = omega (arith, h)

  pub build-First :
      (rounds k last bytes : ℕ) (a : Claim)
      → a.first ≡ 0
      → k + rounds ≡ n
      → 0 < bytes
      → bytes ≤ room board.erase_size a.clusters rounds k
      → room board.erase_size a.clusters rounds k ≤ a.free
      → a.free < 4294967296
      → First rounds k bytes a (build_from board rounds (k + 1) last bytes a)
  unfolding build_from
  build-First zero k last bytes a f r b h enough w = absurd (omega arith)
  build-First (suc rounds) k last bytes a f r b h enough w =
      rw (index) (elim (Bool-cases (a.clusters k == 0)) [
        | inl is_free ↦ elim (Bool-cases (leb bytes board.erase_size)) [
          | inl ends ↦
              rw (is_free, ends, starts)
                (First-end rounds k bytes a b r is_free (ground (arith, is_free)) w ends)
          | inr more ↦
              rw (is_free, more, starts)
                (First-more rounds k bytes a b r is_free (ground (arith, is_free)) w _ (
                  build-Later board n small sized rounds (k + 1) k (bytes - board.erase_size)
                    (started rounds k bytes a b r) (omega arith) (omega arith) (omega arith)
                    (ground (arith, more)) (ground (arith, is_free))
                    (ground (
                      arith,
                      is_free,
                      started_less rounds k bytes a b r is_free (ground (arith, is_free)) w,
                    ))
                    (omega (
                      arith,
                      started_less rounds k bytes a b r is_free (ground (arith, is_free)) w,
                    ))))
        ]
        | inr taken ↦ rw taken (
            First-skip rounds k bytes a b r taken _ (
              build-First rounds (k + 1) last bytes a f (omega arith) b (ground (arith, taken))
                (ground (arith, taken)) w))
      ])
    where
      index : k + 1 - 1 ≡ k
      index = omega arith

      starts : (a.first == 0) ≡ true
      starts = ground (arith, f)
