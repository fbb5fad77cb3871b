-- ===== src/FlashFs/Link.antt =====
-- The loop of FlashFSBuildClusterList behind the first cluster, from a table with enough free clusters.
use mathlib.Core.Path.{subst}
use common_lib.Prelude.{
  ℕ, zero, suc, ◌+◌, ◌-◌, ◌≤◌, ◌<◌, ◌≡◌, ◌≢◌, ◌==◌, inl, inr, leb, refl, ◌∙◌, sym, arith, List, [],
  ◌∷◌, Bool-cases, true, false, sub32,
}
use common_lib.FlashFs.Clusters.{
  Leads, Absent, AllFree, Rising, Covers, room, Rising-later, Absent-of_Rising, room-same, spent,
  Leads-ne-zero,
}
use common_lib.FlashFs.{Code, done, Board, Claim, fat_end_cluster, set_cluster, build_from}

pub set_self : (t : ℕ → ℕ) (i v : ℕ) → set_cluster t i v i ≡ v
set_self t i v = ground arith

pub set_else : (t : ℕ → ℕ) (i v j : ℕ) → j ≢ i → set_cluster t i v j ≡ t j
set_else t i v j h = ground arith

module _ (board : Board) (n : ℕ) (small : n < fat_end_cluster) (sized : 0 < board.erase_size) where
  -- what the loop makes of a claim, where `last` is the index of the cluster to link to, and `k` that of
  -- the next one to look at
  pub record Later (rounds k last bytes : ℕ) (a : Claim) (result : Code × Claim) : Type 0 where
    pub cs : List ℕ
    pub is_done : result.0 ≡ done
    pub rising : Rising n (k + 1) cs
    pub were_free : AllFree a.clusters cs
    pub covers : Covers board.erase_size cs bytes
    pub first_kept : result.1.first ≡ a.first
    pub leads : Leads n result.1.clusters (result.1.clusters last) cs
    pub kept : (j : ℕ) → j ≢ last → Absent (j + 1) cs → result.1.clusters j ≡ a.clusters j
    pub accounts : result.1.free + spent board.erase_size cs ≡ a.free
    pub room_is :
        room board.erase_size result.1.clusters rounds k + spent board.erase_size cs
        ≡ room board.erase_size a.clusters rounds k

  pub AllFree-same :
      (t t' : ℕ → ℕ) (k : ℕ) (cs : List ℕ)
      → ((j : ℕ) → k ≤ j → t' j ≡ t j)
      → Rising n (k + 1) cs
      → AllFree t' cs
      → AllFree t cs
  AllFree-same t t' k [] same r f = tt
  AllFree-same t t' k (c ∷ cs) same r f = (
    sym (same (c - 1) (omega arith)) ∙ f.0,
    AllFree-same t t' k cs same (Rising-later n (k + 1) (c + 1) cs (omega arith) r.2) f.1,
  )

  abbrev pub linked : ℕ → ℕ → Claim → Claim
  linked k last a = record a {
    clusters = set_cluster a.clusters last (k + 1);
    free = sub32 a.free board.erase_size;
  }

  module _ (rounds k last bytes : ℕ) (a : Claim) (b : 0 < bytes) (fits : k + suc rounds ≡ n) where
    Later-skip :
        (taken : (a.clusters k == 0) ≡ false) (l : last < k) (result : Code × Claim)
        → Later rounds (k + 1) last bytes a result
        → Later (suc rounds) k last bytes a result
    Later-skip taken l result r = record {
      cs = r.cs;
      is_done = r.is_done;
      rising = Rising-later n (k + 1) (k + 1 + 1) r.cs (omega arith) r.rising;
      were_free = r.were_free;
      covers = r.covers;
      first_kept = r.first_kept;
      leads = r.leads;
      kept = r.kept;
      accounts = r.accounts;
      room_is = ground (
        arith,
        taken,
        r.room_is,
        r.kept k (omega arith) (Absent-of_Rising n (k + 1 + 1) (k + 1) r.cs (omega arith) r.rising),
      );
    }

    module _ (is_free : (a.clusters k == 0) ≡ true) (l : last < k)
        (enough : board.erase_size ≤ a.free) (w : a.free < 4294967296) where
      free_less : (linked k last a).free + board.erase_size ≡ a.free
      unfolding sub32
      free_less = omega arith

      room_less :
          room board.erase_size (linked k last a).clusters rounds (k + 1) + board.erase_size
          ≡ room board.erase_size a.clusters (suc rounds) k
      room_less = ground (
        arith,
        is_free,
        room-same board.erase_size a.clusters (set_cluster a.clusters last (k + 1)) rounds (k + 1)
            (λ j h. ground (arith, h, l)),
      )

      Later-end :
          leb bytes board.erase_size ≡ true
          → Later (suc rounds) k last bytes a (
            done,
            record (linked k last a) {
              clusters = set_cluster (linked k last a).clusters k fat_end_cluster;
            },
          )
      Later-end ends = record {
        cs = (k + 1) ∷ [];
        is_done = refl;
        rising = (omega arith, omega arith, tt);
        were_free = (ground (arith, is_free), tt);
        covers = (b, ground (arith, ends));
        first_kept = refl;
        leads = (ground arith, omega arith, omega arith, ground arith);
        kept = λ j q p. ground (arith, q, p.0);
        accounts = omega (arith, free_less);
        room_is = ground (
          arith,
          is_free,
          room-same board.erase_size a.clusters
              (set_cluster (set_cluster a.clusters last (k + 1)) k fat_end_cluster) rounds (k + 1)
              (λ j h. ground (arith, h, l)),
        );
      }

      Later-more :
          (result : Code × Claim)
          → leb bytes board.erase_size ≡ false
          → Later rounds (k + 1) k (bytes - board.erase_size) (linked k last a) result
          → Later (suc rounds) k last bytes a result
      Later-more result more r = record {
        cs = (k + 1) ∷ r.cs;
        is_done = r.is_done;
        rising = (omega arith, omega arith, r.rising);
        were_free = (
          ground (arith, is_free),
          AllFree-same a.clusters (set_cluster a.clusters last (k + 1)) (k + 1) r.cs
              (λ j h. ground (arith, h, l)) r.rising r.were_free,
        );
        covers = (b, r.covers);
        first_kept = r.first_kept;
        leads = (
          r.kept last (omega arith)
                (Absent-of_Rising n (k + 1 + 1) (last + 1) r.cs (omega arith) r.rising)
              ∙ ground arith,
          omega arith,
          omega arith,
          subst (λ x. Leads n result.1.clusters (result.1.clusters x) r.cs) back r.leads,
        );
        kept = λ j q p. r.kept j (other j p.0) p.1 ∙ ground (arith, q);
        accounts = omega (arith, free_less, r.accounts);
        room_is = ground (
          arith,
          is_free,
          r.room_is,
          Leads-ne-zero n result.1.clusters (result.1.clusters k) r.cs r.leads,
          room-same board.erase_size a.clusters (set_cluster a.clusters last (k + 1)) rounds (k + 1)
              (λ j h. ground (arith, h, l)),
        );
      }
        where
          back : k ≡ k + 1 - 1
          back = omega arith

          other : (j : ℕ) → j + 1 ≢ k + 1 → j ≢ k
          other j h = omega (arith, h)

  pub build-Later :
      (rounds k last bytes : ℕ) (a : Claim)
      → a.first ≢ 0
      → last < k
      → k + rounds ≡ n
      → 0 < bytes
      → bytes ≤ room board.erase_size a.clusters rounds k
      → room board.erase_size a.clusters rounds k ≤ a.free
      → a.free < 4294967296
      → Later rounds k last bytes a (build_from board rounds (k + 1) last bytes a)
  unfolding build_from
  build-Later zero k last bytes a f l r b h enough w = absurd (omega arith)
  build-Later (suc rounds) k last bytes a f l r b h enough w =
      rw (index) (elim (Bool-cases (a.clusters k == 0)) [
        | inl is_free ↦ elim (Bool-cases (leb bytes board.erase_size)) [
          | inl ends ↦
              rw (is_free, ends, others)
                (Later-end rounds k last bytes a b r is_free l (ground (arith, is_free)) w ends)
          | inr more ↦
              rw (is_free, more, others)
                (Later-more rounds k last bytes a b r is_free l (ground (arith, is_free)) w _ more (
                  build-Later rounds (k + 1) k (bytes - board.erase_size) (linked k last a) f
                    (omega arith) (omega arith) (ground (arith, more))
                    (omega (
                      arith,
                      room_less rounds k last bytes a b r is_free l (ground (arith, is_free)) w,
                    ))
                    (omega (
                      arith,
                      room_less rounds k last bytes a b r is_free l (ground (arith, is_free)) w,
                      free_less rounds k last bytes a b r is_free l (ground (arith, is_free)) w,
                    ))
                    (omega (
                      arith,
                      free_less rounds k last bytes a b r is_free l (ground (arith, is_free)) w,
                    ))))
        ]
        | inr taken ↦ rw taken (
            Later-skip rounds k last bytes a b r taken l _ (
              build-Later rounds (k + 1) last bytes a f (omega arith) (omega arith) b
                (ground (arith, taken)) (ground (arith, taken)) w))
      ])
    where
      index : k + 1 - 1 ≡ k
      index = omega arith

      others : (a.first == 0) ≡ false
      others = ground (arith, f)
