-- ===== src/Heap/Taken.antt =====
-- A used block leaves its list, and stands among the free ones.
use mathlib.Core.Path.{subst}
use common_lib.Prelude.{
  ℕ, ◌≡◌, ◌≢◌, refl, ◌∙◌, sym, arith, List, [], ◌∷◌, ◌++◌, append_assoc, append-nil,
}
use common_lib.Heap.Blocks.{
  Block, Fresh, ApartFrom, AllApart, ApartFrom-append, ApartFrom-left, ApartFrom-right,
  AllApart-insert, Fresh-of_ApartFrom,
}
use common_lib.Heap.Chains.{
  Chain-Same, AllFresh, AllFresh-of_AllApart, last_place, first_place, size-units,
}
use common_lib.Heap.Unlink.{unlink-size}
use common_lib.Heap.Invariant.{
  IsHeap, AllFresh-left, AllFresh-right, Fresh-right, Fresh-zero, Fresh-last_place,
  Fresh-first_place,
}
use common_lib.Heap.Alloc.{unlinked_free, unlinked_used, others_apart, part_apart, place_ne-zero}
use common_lib.Heap.Insert.{Put, Put-Chain, head_with, Same-of_three}
use common_lib.Heap.Free.{take_used}
use common_lib.Heap.{HeapInfo}

ApartFrom-swap : (b : Block) (xs ys : List Block) → ApartFrom b (xs ++ ys) → ApartFrom b (ys ++ xs)
ApartFrom-swap b xs ys a =
    ApartFrom-append b ys xs (ApartFrom-right b xs ys a) (ApartFrom-left b xs ys a)

AllApart-swap : (xs ys : List Block) → AllApart (xs ++ ys) → AllApart (ys ++ xs)
AllApart-swap [] ys a = subst AllApart (sym (append-nil ys)) a
AllApart-swap (x ∷ xs) ys a =
    AllApart-insert ys x xs (ApartFrom-swap x xs ys a.0) (AllApart-swap xs ys a.1)

module _ (hi : HeapInfo) (free newer : List Block) (b : Block) (older : List Block)
    (v : IsHeap hi free (newer ++ (b ∷ older))) where
  -- with the two lists in each other's place
  abbrev swapped : HeapInfo
  swapped = record hi { free_blocks = hi.used_blocks; used_blocks = hi.free_blocks }

  swapped-IsHeap : IsHeap swapped (newer ++ (b ∷ older)) free
  swapped-IsHeap = record {
    free_chain = v.used_chain;
    used_chain = v.free_chain;
    apart = AllApart-swap free (newer ++ (b ∷ older)) v.apart;
  }

  pub take_used-IsHeap : IsHeap (take_used b.place hi) free (newer ++ older)
  unfolding take_used
  take_used-IsHeap = record {
    free_chain = unlinked_used swapped newer b older free swapped-IsHeap;
    used_chain = unlinked_free swapped newer b older free swapped-IsHeap;
    apart =
        AllApart-swap (newer ++ older) free
          (others_apart swapped newer b older free swapped-IsHeap);
  }

  pub taken_apart : ApartFrom b (free ++ (newer ++ older))
  taken_apart =
      ApartFrom-swap b (newer ++ older) free
        (part_apart swapped newer b older free swapped-IsHeap b (omega arith))

  pub taken_size : ((take_used b.place hi).mem b.place).size ≡ b.units
  unfolding take_used
  taken_size =
      unlink-size hi.mem b.place (hi.mem b.place).prev (hi.mem b.place).next refl refl b.place
      ∙ size-units hi.mem b older 0 hi.used_blocks newer v.used_chain

  pub taken_ne-zero : b.place ≢ 0
  taken_ne-zero =
      place_ne-zero swapped newer b older free swapped-IsHeap newer 0 hi.used_blocks v.used_chain

Fresh-insert :
    (a : ℕ) (xs : List Block) (b : Block) (ys : List Block)
    → a ≢ b.place
    → Fresh a (xs ++ ys)
    → Fresh a (xs ++ (b ∷ ys))
Fresh-insert a [] b ys n f = (n, f)
Fresh-insert a (x ∷ xs) b ys n f = (f.0, Fresh-insert a xs b ys n f.1)

pub Put-IsHeap :
    (hi hi' : HeapInfo) (low high used : List Block) (b : Block)
    → IsHeap hi (low ++ high) used
    → ApartFrom b ((low ++ high) ++ used)
    → b.place ≢ 0
    → Put hi.mem hi'.mem b (last_place 0 low) (first_place high)
    → hi'.free_blocks ≡ head_with b low hi.free_blocks
    → hi'.used_blocks ≡ hi.used_blocks
    → IsHeap hi' (low ++ (b ∷ high)) used
Put-IsHeap hi hi' low high used b v a b0 put head_is used_is = record {
  free_chain = rw head_is (
      Put-Chain hi.mem hi'.mem b b0 high 0 hi.free_blocks low v.free_chain
        (AllFresh-left (low ++ (b ∷ high)) used
          (AllFresh-of_AllApart ((low ++ (b ∷ high)) ++ used) apart))
        (Fresh-insert 0 low b high (λ e. b0 (sym e))
          (Fresh-zero hi.mem 0 hi.free_blocks (low ++ high) v.free_chain))
        put);
  used_chain = rw used_is (
      Chain-Same hi.mem hi'.mem 0 hi.used_blocks used
        (Same-of_three hi.mem hi'.mem (last_place 0 low) (first_place high) b.place used put.other
          (Fresh-last_place 0 low high used used_zero fresh)
          (Fresh-first_place high used used_zero
            (AllFresh-right low (high ++ used) (subst AllFresh (append_assoc low high used) fresh)))
          (Fresh-right b.place (low ++ high) used (Fresh-of_ApartFrom b ((low ++ high) ++ used) a)))
        v.used_chain);
  apart = apart;
}
  where
    apart : AllApart ((low ++ (b ∷ high)) ++ used)
    apart = subst AllApart (sym (append_assoc low (b ∷ high) used)) (
        AllApart-insert low b (high ++ used) (subst (ApartFrom b) (append_assoc low high used) a)
          (subst AllApart (append_assoc low high used) v.apart))

    fresh : AllFresh ((low ++ high) ++ used)
    fresh = AllFresh-of_AllApart ((low ++ high) ++ used) v.apart

    used_zero : Fresh 0 used
    used_zero = Fresh-zero hi.mem 0 hi.used_blocks used v.used_chain
