-- ===== src/Heap/Serve.antt =====
-- Heap_Alloc, by the outcome of first fit.
use mathlib.Core.Path.{subst}
use common_lib.Prelude.{
  ℕ, ◌+◌, ◌-◌, ◌*◌, ◌/◌, ◌≤◌, ◌<◌, ◌≡◌, ◌==◌, inl, inr, refl, ap, ◌∙◌, arith, List, ◌∷◌, ◌++◌,
  Option, none, some, leb, Bool-cases, false, length, length-append,
}
use common_lib.Heap.Blocks.{Block}
use common_lib.Heap.Chains.{Chain, size-units}
use common_lib.Heap.FirstFit.{
  used_part, left_part, first_fit, Fit, first_fit-cases, find_fit-of_Fit, find_fit-of_TooSmall,
}
use common_lib.Heap.Invariant.{IsHeap}
use common_lib.Heap.Alloc.{take_whole-IsHeap, split_off-IsHeap, place_ne-zero}
use common_lib.Heap.{
  header_size, HeapInfo, find_fit, link_used, take_whole, split_off, use_block, heap_alloc,
}

-- What a request gets, from the outcome of first fit: the bytes behind the header of the used block,
-- which are enough, and a heap where the block is the first used one; or NULL, and the heap as it was.
abbrev pub Served :
    HeapInfo → ℕ → List Block → Option (ℕ × HeapInfo) → Option (Block × List Block) → Type 0
Served hi size used result none = result ≡ some (0, hi)
Served hi size used result (some (b, free)) =
    (next_state : HeapInfo) × (result ≡ some (b.place + header_size, next_state))
    × IsHeap next_state free (b ∷ used)
    × (size ≤ b.units * header_size)

module _ (size : ℕ) (hi : HeapInfo) (pre : List Block) (b : Block) (post used : List Block)
    (v : IsHeap hi (pre ++ (b ∷ post)) used) (fits : size / header_size + 1 ≤ b.units) where
  use_block-Served : Served hi size used (use_block (size / header_size + 1) hi (some b.place)) (
      some (
        used_part (size / header_size + 1) b,
        pre ++ (left_part (size / header_size + 1) b ++ post),
      ))
  unfolding use_block take_whole split_off link_used
  use_block-Served = elim (Bool-cases (leb (b.units - (size / header_size + 1)) 1)) [
    | inl whole ↦ rw whole (
      take_whole b.place hi,
      ground (
        arith,
        whole,
        sizes,
        place_ne-zero hi pre b post used v pre 0 hi.free_blocks v.free_chain,
      ),
      take_whole-IsHeap hi pre b post used v,
      omega arith,
    )
    | inr part ↦ rw part (
      split_off (size / header_size + 1) b.place hi,
      ground (
        arith,
        part,
        sizes,
        place_ne-zero hi pre b post used v pre 0 hi.free_blocks v.free_chain,
      ),
      split_off-IsHeap (size / header_size + 1) hi pre b post used v (ground arith),
      omega arith,
    )
  ]
    where
      sizes : (hi.mem b.place).size ≡ b.units
      sizes = size-units hi.mem b post 0 hi.free_blocks pre v.free_chain

-- A request for some bytes, with fuel for the free blocks and one step more: where first fit finds a
-- block, Heap_Alloc returns the address behind its header and a heap with the lists of blocks that
-- first fit leaves and uses, none of which overlap, and the block has room for the request. Where all
-- blocks are too small, it returns NULL and leaves the heap as it was.
pub heap_alloc-first_fit :
    (size fuel : ℕ) (hi : HeapInfo) (free used : List Block)
    → IsHeap hi free used
    → 0 < size
    → length free < fuel
    → Served hi size used (heap_alloc fuel hi size) (first_fit (size / header_size + 1) free)
unfolding heap_alloc
heap_alloc-first_fit size fuel hi free used v some_bytes enough =
    rw positive (elim (first_fit-cases (size / header_size + 1) free) [
      | inl f ↦ served_by f
      | inr (e, small) ↦ rw e (
          ap (use_block (size / header_size + 1) hi) (
            find_fit-of_TooSmall hi.mem (size / header_size + 1) fuel 0 hi.free_blocks free
              v.free_chain small enough)
          ∙ unfold use_block in refl)
    ])
  where
    positive : (size == 0) ≡ false
    positive = ground arith

    served_by :
        Fit (size / header_size + 1) free
        → Served hi size used
            (use_block
              (size / header_size + 1)
              hi
              (find_fit fuel hi.mem (size / header_size + 1) hi.free_blocks))
            (first_fit (size / header_size + 1) free)
    served_by f = rw f.fitted (
        rw
          (find_fit-of_Fit hi.mem (size / header_size + 1) fuel 0 hi.free_blocks f.pre f.block
            f.post (subst (Chain hi.mem 0 hi.free_blocks) f.parts v.free_chain) f.small f.fits
            short)
          (use_block-Served size hi f.pre f.block f.post used
            (subst (λ l. IsHeap hi l used) f.parts v) f.fits))
      where
        short : length f.pre < fuel
        short = omega (arith, ap length f.parts, length-append f.pre (f.block ∷ f.post))
