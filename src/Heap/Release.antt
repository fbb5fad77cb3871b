-- ===== src/Heap/Release.antt =====
-- Heap_Free, by the lists that it is called on and that it leaves.
use mathlib.Core.Path.{subst}
use common_lib.Prelude.{
  ℕ, ◌+◌, ◌-◌, ◌<◌, ◌≡◌, ◌≢◌, ◌==◌, refl, arith, List, [], ◌∷◌, ◌++◌, append-nil, leb,
  if◌then◌else◌, true, false, some, length, length-append,
}
use common_lib.Heap.Memory.{Mem, set_prev, set_next}
use common_lib.Heap.Blocks.{Block, ApartFrom}
use common_lib.Heap.Chains.{Chain, last_place, prev-last_place}
use common_lib.Heap.Invariant.{IsHeap, last_place-ne-zero}
use common_lib.Heap.Alloc.{place_ne-zero}
use common_lib.Heap.Insert.{head_with}
use common_lib.Heap.Place.{
  AllBelow, AllAbove, find_place-high, find_place-low, insert_before-Put, insert_after-Put,
  only_free-Put,
}
use common_lib.Heap.Merge.{absorb, AllReached}
use common_lib.Heap.Around.{freed, Released, merge_around-freed}
use common_lib.Heap.Taken.{take_used-IsHeap, taken_apart, taken_size, taken_ne-zero, Put-IsHeap}
use common_lib.Heap.Free.{
  address_within_heap, find_place, insert_before, insert_after, insert_free, only_free, take_used,
  heap_free,
}
use common_lib.Heap.{header_size, HeapInfo}

last_place-below :
    (h before : ℕ) (low : List Block) → before < h → AllBelow h low → last_place before low < h
last_place-below h before [] b a = b
last_place-below h before (q ∷ low) b a = last_place-below h q.place low a.0 a.1

last_place-next :
    (m : Mem) (before head : ℕ) (a : Block) (low : List Block)
    → Chain m before head (a ∷ low)
    → (m (last_place a.place low)).next ≡ 0
last_place-next m before head a [] c = c.4
last_place-next m before head a (d ∷ low) c = last_place-next m a.place (m a.place).next d low c.4

-- the heap that the block goes into
module _ (fuel : ℕ) (hi : HeapInfo) (b : Block) (used : List Block) (b0 : b.place ≢ 0)
    (size_is : (hi.mem b.place).size ≡ b.units) where
  insert-low :
      (a : Block) (low : List Block)
      → IsHeap hi ((a ∷ low) ++ []) used
      → ApartFrom b (((a ∷ low) ++ []) ++ used)
      → AllBelow b.place (a ∷ low)
      → AllReached (b ∷ [])
      → length (a ∷ low) < fuel
      → 1 < fuel
      → Released
          (insert_free fuel b.place hi (find_place fuel hi.mem b.place hi.free_blocks))
          (freed (a ∷ low) b [])
          used
  unfolding insert_free
  insert-low a low v apart below reach enough more =
      rw (find_place-low hi.mem b.place fuel 0 hi.free_blocks a low chain below enough, behind)
        (merge_around-freed fuel b [] used reach more (insert_after b.place p hi) (a ∷ low) (
          Put-IsHeap hi (insert_after b.place p hi) (a ∷ low) [] used b v apart b0
            (insert_after-Put hi b size_is p (last_place-next hi.mem 0 hi.free_blocks a low chain)
              (last_place-ne-zero hi.mem 0 hi.free_blocks a low [] v.free_chain)
              (ground (arith, under)))
            (unfold insert_after in refl) (unfold insert_after in refl)))
    where
      p : ℕ
      p = last_place a.place low

      chain : Chain hi.mem 0 hi.free_blocks (a ∷ low)
      chain = subst (Chain hi.mem 0 hi.free_blocks) (append-nil (a ∷ low)) v.free_chain

      under : last_place a.place low < b.place
      under = last_place-below b.place a.place low below.0 below.1

      behind : leb b.place (last_place a.place low) ≡ false
      behind = ground (arith, under)

  head_before :
      (low : List Block) (d : Block) (high : List Block)
      → d.place ≢ b.place
      → Chain hi.mem 0 hi.free_blocks (low ++ (d ∷ high))
      → (hi.mem d.place).prev ≡ last_place 0 low
      → (insert_before b.place d.place hi).free_blocks ≡ head_with b low hi.free_blocks
  unfolding insert_before set_prev set_next
  head_before [] d high db c e = ground (arith, e, db)
  head_before (a ∷ low) d high db c e =
      ground (arith, e, db, last_place-ne-zero hi.mem 0 hi.free_blocks a low (d ∷ high) c)

  insert-high :
      (low : List Block) (d : Block) (high : List Block)
      → IsHeap hi (low ++ (d ∷ high)) used
      → ApartFrom b ((low ++ (d ∷ high)) ++ used)
      → AllBelow b.place low
      → b.place < d.place
      → AllReached (b ∷ d ∷ high)
      → length low < fuel
      → length (b ∷ d ∷ high) < fuel
      → Released
          (insert_free fuel b.place hi (find_place fuel hi.mem b.place hi.free_blocks))
          (freed low b (d ∷ high))
          used
  unfolding insert_free
  insert-high low d high v apart below above reach enough more =
      rw
        (
          find_place-high hi.mem b.place fuel 0 hi.free_blocks low d high v.free_chain below above
              enough,
          before,
        )
        (merge_around-freed fuel b (d ∷ high) used reach more (insert_before b.place d.place hi) low
          (Put-IsHeap hi (insert_before b.place d.place hi) low (d ∷ high) used b v apart b0
            (insert_before-Put hi b size_is (last_place 0 low) d.place prev_is
              (place_ne-zero hi low d high used v low 0 hi.free_blocks v.free_chain)
              (omega (arith, under, above)) (omega (arith, under)) (omega (arith, above)))
            (head_before low d high (omega (arith, above)) v.free_chain prev_is)
            (unfold insert_before in refl)))
    where
      prev_is : (hi.mem d.place).prev ≡ last_place 0 low
      prev_is = prev-last_place hi.mem d high 0 hi.free_blocks low v.free_chain

      under : last_place 0 low < b.place
      under = last_place-below b.place 0 low (omega (arith, b0)) below

      before : leb b.place d.place ≡ true
      before = ground (arith, above)

  insert-only : IsHeap hi [] used → ApartFrom b used → IsHeap (only_free b.place hi) (b ∷ []) used
  insert-only v apart =
      Put-IsHeap hi (only_free b.place hi) [] [] used b v apart b0 (only_free-Put hi b size_is)
        (unfold only_free in refl) (unfold only_free in refl)

head_is-zero : (m : Mem) (head : ℕ) → Chain m 0 head [] → (head == 0) ≡ true
head_is-zero m head c = ground arith

head_ne-zero :
    (m : Mem) (head : ℕ) (a : Block) (bs : List Block)
    → Chain m 0 head (a ∷ bs)
    → (head == 0) ≡ false
head_ne-zero m head a bs c = ground (arith, c.0, c.1)

head_ne-zero_at :
    (m : Mem) (head : ℕ) (low : List Block) (d : Block) (high : List Block)
    → Chain m 0 head (low ++ (d ∷ high))
    → (head == 0) ≡ false
head_ne-zero_at m head [] d high c = head_ne-zero m head d high c
head_ne-zero_at m head (a ∷ low) d high c = head_ne-zero m head a (low ++ (d ∷ high)) c

-- A used block whose address is within the spaces, with the free blocks in two parts, those below it
-- and those above it, where it and those above end within the 32-bit addresses, and more fuel than
-- there are free blocks with it: Heap_Free takes it from the used blocks, and the free list is as it
-- was, with the block between the two parts, joined to its neighbours where they touch it, and no two
-- blocks of the lists overlap.
pub heap_free-freed :
    (fuel : ℕ) (hi : HeapInfo) (low high newer : List Block) (b : Block) (older : List Block)
    → IsHeap hi (low ++ high) (newer ++ (b ∷ older))
    → AllBelow b.place low
    → AllAbove b.place high
    → address_within_heap hi.heap_spaces b.place ≡ true
    → AllReached (b ∷ high)
    → length (low ++ (b ∷ high)) < fuel
    → Released (heap_free fuel hi (b.place + header_size)) (freed low b high) (newer ++ older)
unfolding heap_free freed absorb
heap_free-freed fuel hi low high newer b older v below above within reach enough =
    rw (header_at, within) (by_place low high v below above reach enough)
  where
    header_at : b.place + header_size - header_size ≡ b.place
    header_at = omega arith

    taken : HeapInfo
    taken = take_used b.place hi

    b_ne-zero : {free : List Block} → IsHeap hi free (newer ++ (b ∷ older)) → b.place ≢ 0
    b_ne-zero {free} w = taken_ne-zero hi free newer b older w

    b_size :
        {free : List Block}
        → IsHeap hi free (newer ++ (b ∷ older))
        → (taken.mem b.place).size ≡ b.units
    b_size {free} w = taken_size hi free newer b older w

    by_place :
        (low high : List Block)
        → IsHeap hi (low ++ high) (newer ++ (b ∷ older))
        → AllBelow b.place low
        → AllAbove b.place high
        → AllReached (b ∷ high)
        → length (low ++ (b ∷ high)) < fuel
        → Released
            (if (take_used b.place hi).free_blocks == 0
              then some (only_free b.place (take_used b.place hi))
              else insert_free fuel b.place (take_used b.place hi) (
                  find_place fuel
                    (take_used b.place hi).mem
                    b.place
                    (take_used b.place hi).free_blocks))
            (freed low b high)
            (newer ++ older)
    by_place [] [] w below above reach enough =
        rw
          (head_is-zero taken.mem taken.free_blocks
            (take_used-IsHeap hi [] newer b older w).free_chain)
          (record {
            after = only_free b.place taken;
            ends = refl;
            valid =
                insert-only fuel taken b (newer ++ older) (b_ne-zero w) (b_size w)
                  (take_used-IsHeap hi [] newer b older w) (taken_apart hi [] newer b older w);
          })
    by_place (a ∷ low) [] w below above reach enough =
        rw
          (head_ne-zero taken.mem taken.free_blocks a (low ++ [])
            (take_used-IsHeap hi ((a ∷ low) ++ []) newer b older w).free_chain)
          (insert-low fuel taken b (newer ++ older) (b_ne-zero w) (b_size w) a low
            (take_used-IsHeap hi ((a ∷ low) ++ []) newer b older w)
            (taken_apart hi ((a ∷ low) ++ []) newer b older w) below reach
            (omega (arith, length-append (a ∷ low) (b ∷ [])))
            (omega (arith, length-append (a ∷ low) (b ∷ []))))
    by_place low (d ∷ high) w below above reach enough =
        rw
          (head_ne-zero_at taken.mem taken.free_blocks low d high
            (take_used-IsHeap hi (low ++ (d ∷ high)) newer b older w).free_chain)
          (insert-high fuel taken b (newer ++ older) (b_ne-zero w) (b_size w) low d high
            (take_used-IsHeap hi (low ++ (d ∷ high)) newer b older w)
            (taken_apart hi (low ++ (d ∷ high)) newer b older w) below above.0 reach
            (omega (arith, length-append low (b ∷ d ∷ high)))
            (omega (arith, length-append low (b ∷ d ∷ high))))
