-- ===== src/Heap/Invariant.antt =====
-- What heap.c keeps: two lists of blocks, none of which overlap.
use mathlib.Core.Path.{subst}
use common_lib.Prelude.{ℕ, ◌≡◌, ◌≢◌, sym, List, [], ◌∷◌, ◌++◌}
use common_lib.Heap.Memory.{Mem}
use common_lib.Heap.Blocks.{Block, AllApart, Fresh, AllApart-remove}
use common_lib.Heap.Chains.{
  Chain, Chain-Same, Same-of_two, AllFresh, AllFresh-of_AllApart, last_place, first_place,
  Chain-head,
}
use common_lib.Heap.Link.{link_mem-Chain, link_mem-else}
use common_lib.Heap.{HeapInfo, link_mem, link_used}

-- The two lists of the heap stand for `free` and `used`, whose blocks do not overlap.
pub record IsHeap (hi : HeapInfo) (free used : List Block) : Type 0 where
  pub free_chain : Chain hi.mem 0 hi.free_blocks free
  pub used_chain : Chain hi.mem 0 hi.used_blocks used
  pub apart : AllApart (free ++ used)

pub AllFresh-left : (xs ys : List Block) → AllFresh (xs ++ ys) → AllFresh xs
AllFresh-left [] ys f = tt
AllFresh-left (x ∷ xs) ys f = (fresh xs f.0, AllFresh-left xs ys f.1)
  where
    fresh : (zs : List Block) → Fresh x.place (zs ++ ys) → Fresh x.place zs
    fresh [] g = tt
    fresh (z ∷ zs) g = (g.0, fresh zs g.1)

pub AllFresh-right : (xs ys : List Block) → AllFresh (xs ++ ys) → AllFresh ys
AllFresh-right [] ys f = f
AllFresh-right (x ∷ xs) ys f = AllFresh-right xs ys f.1

-- Places in a list are not NULL.
pub Fresh-zero : (m : Mem) (before head : ℕ) (bs : List Block) → Chain m before head bs → Fresh 0 bs
Fresh-zero m before head [] c = tt
Fresh-zero m before head (b ∷ bs) c =
    ((λ e. c.1 (sym e)), Fresh-zero m b.place (m b.place).next bs c.4)

-- An address of one list is none of the other.
pub Fresh-last_place :
    (before : ℕ) (pre rest used : List Block)
    → Fresh before used
    → AllFresh ((pre ++ rest) ++ used)
    → Fresh (last_place before pre) used
Fresh-last_place before [] rest used f g = f
Fresh-last_place before (a ∷ pre) rest used f g =
    Fresh-last_place a.place pre rest used (Fresh-behind a.place (pre ++ rest) used g.0) g.1
  where
    Fresh-behind : (a : ℕ) (xs ys : List Block) → Fresh a (xs ++ ys) → Fresh a ys
    Fresh-behind a [] ys h = h
    Fresh-behind a (x ∷ xs) ys h = Fresh-behind a xs ys h.1

pub Fresh-right : (a : ℕ) (xs ys : List Block) → Fresh a (xs ++ ys) → Fresh a ys
Fresh-right a [] ys h = h
Fresh-right a (x ∷ xs) ys h = Fresh-right a xs ys h.1

pub Fresh-left : (a : ℕ) (xs ys : List Block) → Fresh a (xs ++ ys) → Fresh a xs
Fresh-left a [] ys h = tt
Fresh-left a (x ∷ xs) ys h = (h.0, Fresh-left a xs ys h.1)

pub Fresh-first_place :
    (post used : List Block)
    → Fresh 0 used
    → AllFresh (post ++ used)
    → Fresh (first_place post) used
Fresh-first_place [] used f g = f
Fresh-first_place (b ∷ post) used f g = Fresh-right b.place post used g.0

Fresh-middle :
    (xs : List Block) (b : Block) (ys : List Block) → AllFresh (xs ++ (b ∷ ys)) → Fresh b.place xs
Fresh-middle [] b ys f = tt
Fresh-middle (x ∷ xs) b ys f =
    ((λ e. (Fresh-right x.place xs (b ∷ ys) f.0).0 (sym e)), Fresh-middle xs b ys f.1)

Fresh-first_used :
    (m : Mem) (head : ℕ) (free used : List Block)
    → Chain m 0 head free
    → AllFresh (free ++ used)
    → Fresh (first_place used) free
Fresh-first_used m head free [] c f = Fresh-zero m 0 head free c
Fresh-first_used m head free (d ∷ used) c f = Fresh-middle free d used f

-- A block that is in neither list joins the used ones.
pub linked-IsHeap :
    (hi : HeapInfo) (u : Block) (free used : List Block)
    → Chain hi.mem 0 hi.free_blocks free
    → Chain hi.mem 0 hi.used_blocks used
    → (hi.mem u.place).size ≡ u.units
    → u.place ≢ 0
    → AllApart (free ++ (u ∷ used))
    → IsHeap (link_used u.place hi) free (u ∷ used)
unfolding link_used
linked-IsHeap hi u free used cf cu z u0 a = record {
  free_chain =
      Chain-Same hi.mem (link_mem hi.mem u.place hi.used_blocks) 0 hi.free_blocks free
        (Same-of_two hi.mem (link_mem hi.mem u.place hi.used_blocks) u.place hi.used_blocks free
          (link_mem-else hi.mem u.place hi.used_blocks) (Fresh-middle free u used fresh)
          (subst (λ h. Fresh h free) (sym (Chain-head hi.mem 0 hi.used_blocks used cu))
            (Fresh-first_used hi.mem hi.free_blocks free used cf without)))
        cf;
  used_chain =
      link_mem-Chain hi.mem u hi.used_blocks used cu z u0 (AllFresh-right free (u ∷ used) fresh).0
        (AllFresh-right free (u ∷ used) fresh).1;
  apart = a;
}
  where
    fresh : AllFresh (free ++ (u ∷ used))
    fresh = AllFresh-of_AllApart (free ++ (u ∷ used)) a

    without : AllFresh (free ++ used)
    without = AllFresh-of_AllApart (free ++ used) (AllApart-remove free u used a)

pub last_place-ne-zero :
    (m : Mem) (before head : ℕ) (a : Block) (pre rest : List Block)
    → Chain m before head ((a ∷ pre) ++ rest)
    → last_place a.place pre ≢ 0
last_place-ne-zero m before head a [] rest c = c.1
last_place-ne-zero m before head a (d ∷ pre) rest c =
    last_place-ne-zero m a.place (m a.place).next d pre rest c.4
