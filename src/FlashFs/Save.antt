-- ===== src/FlashFs/Save.antt =====
-- FlashFSInternalWrite: the clusters of a file and the bytes that they hold.
use mathlib.Core.Path.{subst}
use common_lib.Prelude.{
  ℕ, zero, suc, ◌+◌, ◌-◌, ◌*◌, ◌≤◌, ◌<◌, ◌≡◌, ◌≢◌, ◌==◌, ◌⊎◌, inl, inr, leb, refl, ◌∙◌, sym, arith,
  List, [], ◌∷◌, Bool-cases, true, false, Option, some, length, take, drop, leb→le, length-take,
  length-drop,
}
use common_lib.FlashFs.Clusters.{Leads, Absent, AllApart, AllDiffer, Covers}
use common_lib.FlashFs.Device.{Stores, SameIn, Stores-same, IsFlash}
use common_lib.FlashFs.Files.{Flash, write_tail, write_from}
use common_lib.FlashFs.Tail.{times, take_long, drop_long, Wrote, write_tail-Wrote}
use common_lib.FlashFs.{Code, done, Board}

below : (x y e : ℕ) → x < y → x * e + e ≤ y * e
below x y e h = grind arith

-- The clusters hold the bytes, `e` in each and the rest in the last.
abbrev pub Holds : {D : Type 0} → (D → ℕ → ℕ) → ℕ → D → List ℕ → List ℕ → Type 0
Holds byte_at e d [] contents = contents ≡ []
Holds byte_at e d (c ∷ cs) contents =
    Stores byte_at d (c * e) (take e contents) × Holds byte_at e d cs (drop e contents)

-- Clusters that are all as they were hold what they held.
pub Holds-same :
    {D : Type 0} (byte_at : D → ℕ → ℕ) (e : ℕ) (d d' : D) (cs ds contents : List ℕ)
    → ((x : ℕ) → Absent x cs → SameIn byte_at d d' (x * e) e)
    → AllApart ds cs
    → Holds byte_at e d ds contents
    → Holds byte_at e d' ds contents
Holds-same byte_at e d d' cs [] contents same apart h = h
Holds-same byte_at e d d' cs (x ∷ ds) contents same apart h = (
  Stores-same byte_at d d' (x * e) (take e contents)
      (λ a p q. same x apart.0 a p (omega (arith, length-take e contents))) h.0,
  Holds-same byte_at e d d' cs ds (drop e contents) same apart.1 h.1,
)

module _ {D : Type 0} (board : Board) (ops : Flash D) (byte_at : D → ℕ → ℕ)
    (flash : IsFlash board ops byte_at) (parts : 0 < board.program_size)
    (sized : 0 < board.erase_size) (n m : ℕ) (whole : board.erase_size ≡ times m board.program_size)
    (within : (x : ℕ) → x ≤ n → x * board.erase_size + board.erase_size ≤ board.fs_size)
    (clusters : ℕ → ℕ) where
  pub record Saved (result : Option (Code × D)) (d : D) (cs contents : List ℕ) : Type 0 where
    pub after : D
    pub ends : result ≡ some (done, after)
    pub holds : Holds byte_at board.erase_size after cs contents
    pub else_same :
        (x : ℕ) → Absent x cs → SameIn byte_at d after (x * board.erase_size) board.erase_size

  outside :
      (x c a : ℕ)
      → x ≢ c
      → x * board.erase_size ≤ a
      → a < x * board.erase_size + board.erase_size
      → (a < c * board.erase_size) ⊎ (c * board.erase_size + board.erase_size ≤ a)
  outside x c a ne low high = elim (Bool-cases (leb x c)) [
    | inl le ↦ inl (omega (arith, below x c board.erase_size (ground (arith, ne, le))))
    | inr gt ↦ inr (omega (arith, below c x board.erase_size (ground (arith, gt))))
  ]

  module _ (c : ℕ) (contents : List ℕ) (d : D) (high : c ≤ n) where
    abbrev blank : D
    blank = (ops.erase (c * board.erase_size) board.erase_size d).0

    save-tail :
        (result : Option (Code × D))
        → length contents < board.erase_size
        → Wrote board ops byte_at flash parts result blank
            (c * board.erase_size)
            board.erase_size
            contents
        → Saved result d (c ∷ []) contents
    save-tail result short r = record {
      after = r.after;
      ends = r.ends;
      holds = (
        rw (take_long board.erase_size contents (omega arith)) r.stores,
        drop_long board.erase_size contents (omega arith),
      );
      else_same = λ x p a low high'.
          r.else_same a (outside x c a p.0 low high')
          ∙ flash.erase_else d (c * board.erase_size) board.erase_size a
              (outside x c a p.0 low high');
    }

    abbrev full : D
    full = (ops.write (c * board.erase_size) (take board.erase_size contents) blank).0

    save-full :
        (result : Option (Code × D)) (cs : List ℕ)
        → board.erase_size ≤ length contents
        → Absent c cs
        → Saved result full cs (drop board.erase_size contents)
        → Saved result d (c ∷ cs) contents
    save-full result cs long fresh r = record {
      after = r.after;
      ends = r.ends;
      holds = (
        Stores-same byte_at full r.after (c * board.erase_size) (take board.erase_size contents)
            (λ a low high'. r.else_same c fresh a low (omega (arith, taken)))
            (flash.written blank (c * board.erase_size) (take board.erase_size contents)
              (omega (arith, taken, within c high))
              (λ a low high'.
                flash.erased d (c * board.erase_size) board.erase_size (within c high) a low
                  (omega (arith, taken)))),
        r.holds,
      );
      else_same = λ x p a low high'.
          r.else_same x p.1 a low high'
          ∙ flash.write_else blank (c * board.erase_size) (take board.erase_size contents) a
              (beside x a p.0 low high')
          ∙ flash.erase_else d (c * board.erase_size) board.erase_size a
              (outside x c a p.0 low high');
    }
      where
        taken : length (take board.erase_size contents) ≡ board.erase_size
        taken = omega (arith, length-take board.erase_size contents)

        beside :
            (x a : ℕ)
            → x ≢ c
            → x * board.erase_size ≤ a
            → a < x * board.erase_size + board.erase_size
            → (a < c * board.erase_size)
              ⊎ (c * board.erase_size + length (take board.erase_size contents) ≤ a)
        beside x a ne low high' =
            subst (λ l. (a < c * board.erase_size) ⊎ (c * board.erase_size + l ≤ a)) (sym taken)
              (outside x c a ne low high')

  pub write_from-Saved :
      (fuel : ℕ) (cs : List ℕ) (c size : ℕ) (contents : List ℕ) (d : D)
      → size ≡ length contents
      → Leads n clusters c cs
      → AllDiffer cs
      → Covers board.erase_size cs size
      → size < fuel
      → Saved (write_from board ops fuel clusters c contents size d) d cs contents
  unfolding write_from
  write_from-Saved zero cs c size contents d e l f v enough = absurd (omega arith)
  write_from-Saved (suc fuel) [] c size contents d e l f v enough =
      rw empty (save-none contents (omega (arith, e, v)))
    where
      empty : (size == 0) ≡ true
      empty = ground arith

      save-none : (bytes : List ℕ) → length bytes ≡ 0 → Saved (some (done, d)) d [] bytes
      save-none [] h = record {
        after = d;
        ends = refl;
        holds = refl;
        else_same = λ x p a low high. refl;
      }
      save-none (b ∷ bytes) h = absurd (omega arith)
  write_from-Saved (suc fuel) (x ∷ cs) c size contents d e l f v enough =
      rw (l.0, some_left, flash.erase_ok d (x * board.erase_size) board.erase_size (within x l.2))
        (elim (Bool-cases (leb board.erase_size size)) [
          | inl long ↦
              rw
                (
                  long,
                  flash.write_ok (blank x contents d l.2) (x * board.erase_size)
                      (take board.erase_size contents) (room long),
                )
                (save-full x contents d l.2 _ cs (omega (arith, e, leb→le _ _ long)) f.0 (
                  write_from-Saved fuel cs (clusters (x - 1)) (size - board.erase_size)
                    (drop board.erase_size contents) (full x contents d l.2)
                    (omega (arith, length-drop board.erase_size contents)) l.3 f.1 v.1
                    (omega arith)))
          | inr short ↦ rw short (in_last cs v.1 short)
        ])
    where
      some_left : (size == 0) ≡ false
      some_left = ground (arith, v.0)

      room :
          leb board.erase_size size ≡ true
          → x * board.erase_size + length (take board.erase_size contents) ≤ board.fs_size
      room long = omega (arith, within x l.2, length-take board.erase_size contents)

      in_last :
          (cs : List ℕ)
          → Covers board.erase_size cs (size - board.erase_size)
          → leb board.erase_size size ≡ false
          → Saved
              (write_tail board ops
                (suc size)
                (x * board.erase_size)
                contents
                size
                (blank x contents d l.2))
              d
              (x ∷ cs)
              contents
      in_last [] h short = save-tail x contents d l.2 _ (ground (arith, e, short)) (
          subst
            (λ w.
              Wrote board ops byte_at flash parts
                (write_tail board ops (suc size) (x * board.erase_size) contents size
                  (blank x contents d l.2))
                (blank x contents d l.2) (x * board.erase_size) w contents)
            (sym whole)
            (write_tail-Wrote board ops byte_at flash parts (suc size) m (x * board.erase_size) size
              contents (blank x contents d l.2) e (ground (arith, short, whole))
              (omega (arith, within x l.2, whole))
              (λ a h k.
                flash.erased d (x * board.erase_size) board.erase_size (within x l.2) a h
                  (omega (arith, whole)))
              (omega arith)))
      in_last (y ∷ cs) h short = absurd (ground (arith, short, h.0))
