-- ===== src/Heap/Around.antt =====
-- A block that has become free, and its neighbours.
use mathlib.Core.Path.{subst}
use common_lib.Prelude.{
  ℕ, ◌<◌, ◌≡◌, ◌==◌, inl, inr, refl, ◌∙◌, sym, arith, List, [], ◌∷◌, ◌++◌, if◌then◌else◌,
  Bool-cases, false, Option, some, length, append_assoc,
}
use common_lib.Heap.Blocks.{Block, block_end}
use common_lib.Heap.Chains.{Chain, last_place, prev-last_place}
use common_lib.Heap.Invariant.{IsHeap}
use common_lib.Heap.Alloc.{place_ne-zero}
use common_lib.Heap.Join.{both}
use common_lib.Heap.Merge.{absorb, touches, AllReached, Merged, heap_merge-absorb}
use common_lib.Heap.Free.{heap_merge, merge_around, merge_unless}
use common_lib.Heap.{HeapInfo}

-- The free blocks once `b` is one of them, between those below and those above it: it joins the one
-- right below it, where they touch, and all those that follow without a gap.
unfoldable pub freed : List Block → Block → List Block → List Block
freed [] b high = absorb b high
freed (q ∷ []) b high = if b.place == block_end q then absorb q (b ∷ high) else q ∷ absorb b high
freed (q ∷ r ∷ low) b high = q ∷ freed (r ∷ low) b high

pub record Released (result : Option HeapInfo) (free used : List Block) : Type 0 where
  pub after : HeapInfo
  pub ends : result ≡ some after
  pub valid : IsHeap after free used

module _ (fuel : ℕ) (b : Block) (high used : List Block) (reach : AllReached (b ∷ high))
    (enough : length (b ∷ high) < fuel) where
  around_first :
      (hi : HeapInfo)
      → IsHeap hi (b ∷ high) used
      → Released (merge_around fuel b.place hi) (absorb b high) used
  unfolding merge_around
  around_first hi v =
      let merged = heap_merge-absorb fuel high b hi [] used v reach.1 (omega arith) in
      record {
        after = merged.after;
        ends = rw (v.free_chain.2, merged.ends) refl;
        valid = merged.valid;
      }

  module _ (hi : HeapInfo) (pre : List Block) (q : Block)
      (v : IsHeap hi (pre ++ (q ∷ b ∷ high)) used) where
    around_is :
        merge_around fuel b.place hi ≡ merge_unless fuel b.place (heap_merge fuel q.place hi)
    unfolding merge_around
    around_is = rw (prev_is, not_first) refl
      where
        ends : (p : List Block) (k : ℕ) → last_place k (p ++ (q ∷ [])) ≡ q.place
        ends [] k = refl
        ends (a ∷ p) k = ends p a.place

        prev_is : (hi.mem b.place).prev ≡ q.place
        prev_is =
            prev-last_place hi.mem b high 0 hi.free_blocks (pre ++ (q ∷ [])) (
              subst (Chain hi.mem 0 hi.free_blocks) (sym (append_assoc pre (q ∷ []) (b ∷ high)))
                v.free_chain)
            ∙ ends pre 0

        not_first : (q.place == 0) ≡ false
        not_first =
            ground
              (arith, place_ne-zero hi pre q (b ∷ high) used v pre 0 hi.free_blocks v.free_chain)

    joined_to :
        Merged
          (heap_merge fuel q.place hi)
          (b.place == block_end q)
          hi
          (pre ++ absorb q (b ∷ high))
          used
    joined_to = heap_merge-absorb fuel (b ∷ high) q hi pre used v reach enough

    around_gap :
        (b.place == block_end q) ≡ false
        → Released (merge_around fuel b.place hi) (pre ++ (q ∷ absorb b high)) used
    unfolding absorb
    around_gap gap = record {
      after = behind.after;
      ends = around_is ∙ rw (joined_to.ends, gap, behind.ends) refl;
      valid =
          subst (λ l. IsHeap behind.after l used) (append_assoc pre (q ∷ []) (absorb b high))
            behind.valid;
    }
      where
        unjoined : IsHeap joined_to.after ((pre ++ (q ∷ [])) ++ (b ∷ high)) used
        unjoined =
            subst (λ l. IsHeap joined_to.after l used) (sym (append_assoc pre (q ∷ []) (b ∷ high)))
              (subst
                (λ t.
                  IsHeap joined_to.after
                    (pre ++ (if t then absorb (both q b) high else q ∷ b ∷ high)) used)
                gap joined_to.valid)

        behind :
            Merged
              (heap_merge fuel b.place joined_to.after)
              (touches b high)
              joined_to.after
              ((pre ++ (q ∷ [])) ++ absorb b high)
              used
        behind =
            heap_merge-absorb fuel high b joined_to.after (pre ++ (q ∷ [])) used unjoined reach.1
              (omega arith)

    around_last : Released (merge_around fuel b.place hi) (pre ++ freed (q ∷ []) b high) used
    unfolding freed
    around_last = elim (Bool-cases (b.place == block_end q)) [
      | inl touch ↦ rw touch (record {
        after = joined_to.after;
        ends = around_is ∙ rw (joined_to.ends, touch) refl;
        valid = joined_to.valid;
      })
      | inr gap ↦ rw gap (around_gap gap)
    ]

  merge_around-freed_from :
      (hi : HeapInfo) (low pre : List Block) (q : Block)
      → IsHeap hi (pre ++ (q ∷ low ++ (b ∷ high))) used
      → Released (merge_around fuel b.place hi) (pre ++ freed (q ∷ low) b high) used
  unfolding freed
  merge_around-freed_from hi [] pre q v = around_last hi pre q v
  merge_around-freed_from hi (r ∷ low) pre q v =
      subst (λ l. Released (merge_around fuel b.place hi) l used)
        (append_assoc pre (q ∷ []) (freed (r ∷ low) b high))
        (merge_around-freed_from hi low (pre ++ (q ∷ [])) r (
          subst (λ l. IsHeap hi l used) (sym (append_assoc pre (q ∷ []) (r ∷ low ++ (b ∷ high))))
            v))

  pub merge_around-freed :
      (hi : HeapInfo) (low : List Block)
      → IsHeap hi (low ++ (b ∷ high)) used
      → Released (merge_around fuel b.place hi) (freed low b high) used
  merge_around-freed hi [] v = unfold freed in around_first hi v
  merge_around-freed hi (q ∷ low) v = merge_around-freed_from hi low [] q v
