-- ===== src/Heap/Merge.antt =====
-- Heap_Merge, and the blocks that follow one without a gap.
use common_lib.Prelude.{
  ℕ, zero, suc, ◌≤◌, ◌<◌, ◌≡◌, ◌≢◌, ◌==◌, inl, inr, refl, ◌∙◌, arith, List, [], ◌∷◌, ◌++◌,
  if◌then◌else◌, Bool, Bool-cases, true, false, Option, some, length,
}
use common_lib.Heap.Memory.{Mem}
use common_lib.Heap.Blocks.{Block, block_end}
use common_lib.Heap.Chains.{Chain, Chain-head, size-units, next-first_place, first_place}
use common_lib.Heap.Invariant.{IsHeap}
use common_lib.Heap.Join.{both, join_next-IsHeap}
use common_lib.Heap.Free.{join_next, joined, heap_merge}
use common_lib.Heap.{HeapInfo}

-- A block with those of a list that follow it without a gap, and the rest of the list.
unfoldable pub absorb : Block → List Block → List Block
absorb x [] = x ∷ []
absorb x (y ∷ rest) = if y.place == block_end x then absorb (both x y) rest else x ∷ y ∷ rest

abbrev pub touches : Block → List Block → Bool
touches x [] = false
touches x (y ∷ rest) = y.place == block_end x

-- All blocks end within the 32-bit addresses.
abbrev pub AllReached : List Block → Type 0
AllReached [] = Unit {0}
AllReached (b ∷ bs) = (block_end b ≤ 4294967296) × AllReached bs

pub record Merged (result : Option (Bool × HeapInfo)) (flag : Bool) (hi : HeapInfo)
    (free used : List Block) : Type 0 where
  pub after : HeapInfo
  pub ends : result ≡ some (flag, after)
  pub valid : IsHeap after free used

module _ (m : Mem) (x y : Block) where
  next_ne-zero :
      (before head : ℕ) (pre : List Block) (rest : List Block)
      → Chain m before head (pre ++ (x ∷ y ∷ rest))
      → y.place ≢ 0
  next_ne-zero before head [] rest c = c.4.1
  next_ne-zero before head (a ∷ pre) rest c = next_ne-zero a.place (m a.place).next pre rest c.4

  after_next :
      (before head : ℕ) (pre : List Block) (rest : List Block)
      → Chain m before head (pre ++ (x ∷ y ∷ rest))
      → (m y.place).next ≡ first_place rest
  after_next before head [] rest c = Chain-head m y.place (m y.place).next rest c.4.4
  after_next before head (a ∷ pre) rest c = after_next a.place (m a.place).next pre rest c.4

  third_ne-zero :
      (before head : ℕ) (pre : List Block) (z : Block) (rest : List Block)
      → Chain m before head (pre ++ (x ∷ y ∷ z ∷ rest))
      → z.place ≢ 0
  third_ne-zero before head [] z rest c = c.4.4.1
  third_ne-zero before head (a ∷ pre) z rest c =
      third_ne-zero a.place (m a.place).next pre z rest c.4

module _ (hi : HeapInfo) (pre : List Block) (x : Block) (used : List Block) where
  merge-alone :
      (fuel : ℕ)
      → IsHeap hi (pre ++ (x ∷ [])) used
      → heap_merge (suc fuel) x.place hi ≡ some (false, hi)
  unfolding heap_merge
  merge-alone fuel v =
      ground (arith, next-first_place hi.mem x [] 0 hi.free_blocks pre v.free_chain)

  module _ (y : Block) (rest : List Block) (v : IsHeap hi (pre ++ (x ∷ y ∷ rest)) used) where
    merge-gap :
        (fuel : ℕ)
        → (y.place == block_end x) ≡ false
        → heap_merge (suc fuel) x.place hi ≡ some (false, hi)
    unfolding heap_merge
    merge-gap fuel gap = ground (
      arith,
      gap,
      next-first_place hi.mem x (y ∷ rest) 0 hi.free_blocks pre v.free_chain,
      size-units hi.mem x (y ∷ rest) 0 hi.free_blocks pre v.free_chain,
    )

    merge-step :
        (fuel : ℕ)
        → (y.place == block_end x) ≡ true
        → heap_merge (suc fuel) x.place hi ≡ (
            if first_place rest == 0
            then some (true, join_next x.place hi)
            else joined (heap_merge fuel x.place (join_next x.place hi)))
    unfolding heap_merge
    merge-step fuel touch =
        rw
          (
            next-first_place hi.mem x (y ∷ rest) 0 hi.free_blocks pre v.free_chain,
            size-units hi.mem x (y ∷ rest) 0 hi.free_blocks pre v.free_chain,
            touch,
            not_null,
            after_next hi.mem x y 0 hi.free_blocks pre rest v.free_chain,
          )
          refl
      where
        not_null : (y.place == 0) ≡ false
        not_null = ground (arith, next_ne-zero hi.mem x y 0 hi.free_blocks pre rest v.free_chain)

pub heap_merge-absorb :
    (fuel : ℕ) (rest : List Block) (x : Block) (hi : HeapInfo) (pre used : List Block)
    → IsHeap hi (pre ++ (x ∷ rest)) used
    → AllReached rest
    → length rest < fuel
    → Merged (heap_merge fuel x.place hi) (touches x rest) hi (pre ++ absorb x rest) used
unfolding absorb
heap_merge-absorb zero rest x hi pre used v reach enough = absurd (omega arith)
heap_merge-absorb (suc fuel) [] x hi pre used v reach enough = record {
  after = hi;
  ends = merge-alone hi pre x used fuel v;
  valid = v;
}
heap_merge-absorb (suc fuel) (y ∷ rest) x hi pre used v reach enough =
    elim (Bool-cases (y.place == block_end x)) [
      | inl touch ↦ rw touch (
          go_on rest v touch (
            heap_merge-absorb fuel rest (both x y) (join_next x.place hi) pre used
              (join_next-IsHeap hi pre x y rest used v (ground (arith, touch)) reach.0) reach.1
              (omega arith)))
      | inr gap ↦
          rw gap
            (record { after = hi; ends = merge-gap hi pre x used y rest v fuel gap; valid = v })
    ]
  where
    go_on :
        (rest : List Block)
        → IsHeap hi (pre ++ (x ∷ y ∷ rest)) used
        → (y.place == block_end x) ≡ true
        → Merged
            (heap_merge fuel x.place (join_next x.place hi))
            (touches (both x y) rest)
            (join_next x.place hi)
            (pre ++ absorb (both x y) rest)
            used
        → Merged (heap_merge (suc fuel) x.place hi) true hi (pre ++ absorb (both x y) rest) used
    go_on [] w touch r = record {
      after = join_next x.place hi;
      ends = merge-step hi pre x used y [] w fuel touch;
      valid = join_next-IsHeap hi pre x y [] used w (ground (arith, touch)) reach.0;
    }
    go_on (z ∷ rest) w touch r = record {
      after = r.after;
      ends = merge-step hi pre x used y (z ∷ rest) w fuel touch ∙ rw (not_null, r.ends) refl;
      valid = r.valid;
    }
      where
        not_null : (z.place == 0) ≡ false
        not_null = ground (arith, third_ne-zero hi.mem x y 0 hi.free_blocks pre z rest w.free_chain)
