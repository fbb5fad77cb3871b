-- ===== src/Heap/Alloc.antt =====
-- The two ways in which Heap_Alloc uses a free block.
use mathlib.Core.Path.{subst}
use common_lib.Prelude.{
  ℕ, ◌+◌, ◌-◌, ◌<◌, ◌≡◌, ◌≢◌, inr, refl, ap, ◌∙◌, sym, arith, List, [], ◌∷◌, ◌++◌, append_assoc,
}
use common_lib.Heap.Memory.{Header, Mem, set_size}
use common_lib.Heap.Blocks.{
  Block, ApartFrom, AllApart, Fresh, Within, ApartFrom-Within, Fresh-of_ApartFrom, ApartFrom-append,
  ApartFrom-left, ApartFrom-right, ApartFrom-middle, AllApart-remove, AllApart-insert,
}
use common_lib.Heap.Chains.{
  Chain, Chain-Same, Same-of_two, AllFresh, AllFresh-of_AllApart, last_place, first_place,
  prev-last_place, next-first_place, size-units,
}
use common_lib.Heap.Unlink.{unlink-size, unlink-Chain, unlink-else, head_without}
use common_lib.Heap.Link.{set_size-Chain, set_size-Same, set_size-at}
use common_lib.Heap.{headers_on, HeapInfo, unlink, head_after, link_used, take_whole, split_off}
use common_lib.Heap.Invariant.{
  IsHeap, AllFresh-left, AllFresh-right, Fresh-zero, Fresh-last_place, Fresh-right, Fresh-left,
  Fresh-first_place, linked-IsHeap, last_place-ne-zero,
}

module _ (hi : HeapInfo) (pre : List Block) (b : Block) (post used : List Block)
    (v : IsHeap hi (pre ++ (b ∷ post)) used) where
  rows_apart : AllApart (pre ++ (b ∷ (post ++ used)))
  rows_apart = subst AllApart (append_assoc pre (b ∷ post) used) v.apart

  all_fresh : AllFresh ((pre ++ (b ∷ post)) ++ used)
  all_fresh = AllFresh-of_AllApart ((pre ++ (b ∷ post)) ++ used) v.apart

  free_fresh : AllFresh (pre ++ (b ∷ post))
  free_fresh = AllFresh-left (pre ++ (b ∷ post)) used all_fresh

  pub used_zero : Fresh 0 used
  used_zero = Fresh-zero hi.mem 0 hi.used_blocks used v.used_chain

  pub place_ne-zero :
      (p : List Block) (before head : ℕ) → Chain hi.mem before head (p ++ (b ∷ post)) → b.place ≢ 0
  place_ne-zero [] before head c = c.1
  place_ne-zero (a ∷ p) before head c = place_ne-zero p a.place (hi.mem a.place).next c.4

  -- `b` taken out of the free blocks, or a part of it put among the used ones
  pub others_apart : AllApart ((pre ++ post) ++ used)
  others_apart =
      subst AllApart (sym (append_assoc pre post used))
        (AllApart-remove pre b (post ++ used) rows_apart)

  pub part_apart : (u : Block) → Within u b → ApartFrom u ((pre ++ post) ++ used)
  part_apart u w = subst (ApartFrom u) (sym (append_assoc pre post used)) (
      ApartFrom-Within u b (pre ++ (post ++ used)) w
        (ApartFrom-middle pre b (post ++ used) rows_apart))

  head_moved : head_after hi.mem b.place hi.free_blocks ≡ head_without hi.mem b pre hi.free_blocks
  head_moved = at_front pre v.free_chain
    where
      at_front :
          (p : List Block)
          → Chain hi.mem 0 hi.free_blocks (p ++ (b ∷ post))
          → head_after hi.mem b.place hi.free_blocks ≡ head_without hi.mem b p hi.free_blocks
      at_front [] c = ground (arith, prev-last_place hi.mem b post 0 hi.free_blocks [] c)
      at_front (a ∷ p) c = ground (
        arith,
        prev-last_place hi.mem b post 0 hi.free_blocks (a ∷ p) c,
        last_place-ne-zero hi.mem 0 hi.free_blocks a p (b ∷ post) c,
      )

  pub unlinked_free :
      Chain (unlink hi.mem b.place) 0 (head_after hi.mem b.place hi.free_blocks) (pre ++ post)
  unlinked_free =
      subst (λ h. Chain (unlink hi.mem b.place) 0 h (pre ++ post)) (sym head_moved)
        (unlink-Chain hi.mem b post 0 hi.free_blocks pre v.free_chain free_fresh
          (Fresh-zero hi.mem 0 hi.free_blocks (pre ++ (b ∷ post)) v.free_chain))

  pub unlinked_used : Chain (unlink hi.mem b.place) 0 hi.used_blocks used
  unlinked_used =
      Chain-Same hi.mem (unlink hi.mem b.place) 0 hi.used_blocks used
        (Same-of_two hi.mem (unlink hi.mem b.place) (last_place 0 pre) (first_place post) used
          (unlink-else hi.mem b.place (last_place 0 pre) (first_place post)
            (prev-last_place hi.mem b post 0 hi.free_blocks pre v.free_chain)
            (next-first_place hi.mem b post 0 hi.free_blocks pre v.free_chain))
          (Fresh-last_place 0 pre (b ∷ post) used used_zero all_fresh)
          (Fresh-first_place post used used_zero
            (AllFresh-right pre (b ∷ (post ++ used))
              (AllFresh-of_AllApart (pre ++ (b ∷ (post ++ used))) rows_apart)).1))
        v.used_chain

  pub take_whole-IsHeap : IsHeap (take_whole b.place hi) (pre ++ post) (b ∷ used)
  unfolding take_whole
  take_whole-IsHeap =
      let linked =
        linked-IsHeap
          (record hi {
            mem = unlink hi.mem b.place;
            free_blocks = head_after hi.mem b.place hi.free_blocks;
          })
          b (pre ++ post) used unlinked_free unlinked_used
          (unlink-size hi.mem b.place (hi.mem b.place).prev (hi.mem b.place).next refl refl b.place
            ∙ size-units hi.mem b post 0 hi.free_blocks pre v.free_chain)
          (place_ne-zero pre 0 hi.free_blocks v.free_chain)
          (AllApart-insert (pre ++ post) b used (part_apart b (omega arith)) others_apart) in
      unfold link_used in
      record {
        free_chain = linked.free_chain;
        used_chain = linked.used_chain;
        apart = linked.apart;
      }

module _ (n : ℕ) (hi : HeapInfo) (pre : List Block) (b : Block) (post used : List Block)
    (v : IsHeap hi (pre ++ (b ∷ post)) used) (large : n + 1 < b.units) where
  -- what stays free, and what is used
  abbrev pub kept : Block
  kept = record { place = b.place; units = b.units - (n + 1) }

  abbrev given : Block
  given = record { place = headers_on b.place (b.units - (n + 1) + 1); units = n }

  kept_apart : AllApart (pre ++ (kept ∷ (post ++ used)))
  kept_apart =
      AllApart-insert pre kept (post ++ used)
        (ApartFrom-Within kept b (pre ++ (post ++ used)) (omega arith)
          (ApartFrom-middle pre b (post ++ used) (rows_apart hi pre b post used v)))
        (AllApart-remove pre b (post ++ used) (rows_apart hi pre b post used v))

  given_apart : AllApart ((pre ++ (kept ∷ post)) ++ (given ∷ used))
  given_apart =
      AllApart-insert (pre ++ (kept ∷ post)) given used
        (subst (ApartFrom given) (sym (append_assoc pre (kept ∷ post) used)) (
          ApartFrom-append given pre (kept ∷ (post ++ used))
            (ApartFrom-left given pre (post ++ used) others)
            (inr (omega arith), ApartFrom-right given pre (post ++ used) others)))
        (subst AllApart (sym (append_assoc pre (kept ∷ post) used)) kept_apart)
    where
      others : ApartFrom given (pre ++ (post ++ used))
      others =
          ApartFrom-Within given b (pre ++ (post ++ used)) (omega arith)
            (ApartFrom-middle pre b (post ++ used) (rows_apart hi pre b post used v))

  sizes_mem : Mem
  sizes_mem = set_size hi.mem b.place (b.units - (n + 1))

  split_mem : Mem
  split_mem = set_size sizes_mem given.place n

  given-Fresh : Fresh given.place ((pre ++ (kept ∷ post)) ++ used)
  given-Fresh =
      Fresh-of_ApartFrom given ((pre ++ (kept ∷ post)) ++ used)
        (ApartFrom-middle (pre ++ (kept ∷ post)) given used given_apart)

  split_free : Chain split_mem 0 hi.free_blocks (pre ++ (kept ∷ post))
  unfolding split_mem sizes_mem
  split_free =
      Chain-Same sizes_mem split_mem 0 hi.free_blocks (pre ++ (kept ∷ post))
        (set_size-Same sizes_mem given.place n (pre ++ (kept ∷ post))
          (Fresh-left given.place (pre ++ (kept ∷ post)) used given-Fresh))
        (set_size-Chain hi.mem b (b.units - (n + 1)) 0 hi.free_blocks pre post v.free_chain
          (free_fresh hi pre b post used v))

  split_used : Chain split_mem 0 hi.used_blocks used
  unfolding split_mem sizes_mem
  split_used =
      Chain-Same sizes_mem split_mem 0 hi.used_blocks used
        (set_size-Same sizes_mem given.place n used
          (Fresh-right given.place (pre ++ (kept ∷ post)) used given-Fresh))
        (Chain-Same hi.mem sizes_mem 0 hi.used_blocks used
          (set_size-Same hi.mem b.place (b.units - (n + 1)) used
            (block_fresh pre (all_fresh hi pre b post used v)))
          v.used_chain)
    where
      block_fresh : (p : List Block) → AllFresh ((p ++ (b ∷ post)) ++ used) → Fresh b.place used
      block_fresh [] f = Fresh-right b.place post used f.0
      block_fresh (a ∷ p) f = block_fresh p f.1

  split_linked :
      IsHeap
        (link_used given.place (record hi { mem = split_mem }))
        (pre ++ (kept ∷ post))
        (given ∷ used)
  unfolding split_mem
  split_linked =
      linked-IsHeap (record hi { mem = split_mem }) given (pre ++ (kept ∷ post)) used split_free
        split_used (ap (λ (r : Header). r.size) (set_size-at sizes_mem given.place n)) (omega arith)
        given_apart

  pub split_off-IsHeap : IsHeap (split_off n b.place hi) (pre ++ (kept ∷ post)) (given ∷ used)
  unfolding split_off split_mem sizes_mem
  split_off-IsHeap =
      unfold link_used in
      rw (size-units hi.mem b post 0 hi.free_blocks pre v.free_chain) (record {
        free_chain = split_linked.free_chain;
        used_chain = split_linked.used_chain;
        apart = split_linked.apart;
      })
