-- ===== src/Heap/Start.antt =====
-- Heap_Init: one free block for each space.
use mathlib.Core.Path.{subst}
use common_lib.Prelude.{
  ℕ, ◌≡◌, ◌≢◌, ◌==◌, ◌||◌, refl, ap, ◌∙◌, sym, arith, List, [], ◌∷◌, ◌++◌, if◌then◌else◌, false,
  append_assoc, append-nil,
}
use common_lib.Heap.Memory.{Header}
use common_lib.Heap.Blocks.{Block, AllApart}
use common_lib.Heap.Chains.{Chain, AllFresh, AllFresh-of_AllApart, last_place}
use common_lib.Heap.Invariant.{IsHeap, AllFresh-left, last_place-ne-zero}
use common_lib.Heap.{
  HeapSpace, HeapInfo, heap_init, init_first, init_spaces, add_space, init_header,
}
use common_lib.Heap.Spaces.{
  AllUsable, whole_space, whole_spaces, Chain-snoc, init_header-else, init_header-before,
  init_header-base, last_place-snoc, last_place-new,
}

-- What the loop makes of the spaces that are left, behind the blocks of those before.
record Started (hi : HeapInfo) (result : ℕ × HeapInfo) (bs : List Block) : Type 0 where
  ok : result.0 ≡ 0
  chain : Chain result.1.mem 0 hi.free_blocks bs
  free_kept : result.1.free_blocks ≡ hi.free_blocks
  used_kept : result.1.used_blocks ≡ hi.used_blocks

init_spaces-Started :
    (spaces : List HeapSpace) (before : ℕ) (a : Block) (pre : List Block) (hi : HeapInfo)
    → before ≡ last_place a.place pre
    → Chain hi.mem 0 hi.free_blocks (a ∷ pre)
    → AllFresh ((a ∷ pre) ++ whole_spaces spaces)
    → AllUsable spaces
    → Started hi (init_spaces before spaces hi) ((a ∷ pre) ++ whole_spaces spaces)
unfolding init_spaces add_space
init_spaces-Started [] before a pre hi e c f u = record {
  ok = refl;
  chain = subst (Chain hi.mem 0 hi.free_blocks) (sym (append-nil (a ∷ pre))) c;
  free_kept = refl;
  used_kept = refl;
}
init_spaces-Started (s ∷ spaces) before a pre hi e c f u = behind_it (
    init_spaces-Started spaces s.heap_base a (pre ++ (whole_space s ∷ [])) (add_space before s hi)
      (sym (last_place-snoc a.place pre (whole_space s))) chained all u.1)
  where
    usable_is : (s.heap_base == 0 || s.heap_size == 0) ≡ false
    usable_is = ground (arith, u.0.based, u.0.room)

    regroup :
        ((a ∷ pre) ++ (whole_space s ∷ [])) ++ whole_spaces spaces
        ≡ (a ∷ pre) ++ (whole_space s ∷ whole_spaces spaces)
    regroup = append_assoc (a ∷ pre) (whole_space s ∷ []) (whole_spaces spaces)

    all : AllFresh (((a ∷ pre) ++ (whole_space s ∷ [])) ++ whole_spaces spaces)
    all = subst AllFresh (sym regroup) f

    fresh : AllFresh ((a ∷ pre) ++ (whole_space s ∷ []))
    fresh = AllFresh-left ((a ∷ pre) ++ (whole_space s ∷ [])) (whole_spaces spaces) all

    last0 : before ≢ 0
    last0 = λ k.
        last_place-ne-zero hi.mem 0 hi.free_blocks a pre []
          (subst (Chain hi.mem 0 hi.free_blocks) (sym (append-nil (a ∷ pre))) c) (sym e ∙ k)

    last_new : before ≢ s.heap_base
    last_new = λ k. last_place-new a pre (whole_space s) fresh (sym e ∙ k)

    chained :
        Chain (init_header before s hi.mem) 0 hi.free_blocks ((a ∷ pre) ++ (whole_space s ∷ []))
    chained =
        Chain-snoc hi.mem (init_header before s hi.mem) (whole_space s) u.0.based 0 hi.free_blocks a
          pre c fresh (λ x h k. init_header-else before s hi.mem u.0 x (λ q. h (q ∙ e)) k)
          (subst (λ l. init_header before s hi.mem l ≡ record (hi.mem l) { next = s.heap_base }) e
            (init_header-before before s hi.mem u.0 last0 last_new))
          (subst
            (λ l.
              init_header before s hi.mem s.heap_base
              ≡ record { prev = l; next = 0; size = (whole_space s).units })
            e (init_header-base before s hi.mem u.0 last_new))

    behind_it :
        Started
          (add_space before s hi)
          (init_spaces s.heap_base spaces (add_space before s hi))
          (((a ∷ pre) ++ (whole_space s ∷ [])) ++ whole_spaces spaces)
        → Started hi
            (if s.heap_base == 0 || s.heap_size == 0
              then (3, hi)
              else init_spaces s.heap_base spaces (add_space before s hi))
            ((a ∷ pre) ++ (whole_space s ∷ whole_spaces spaces))
    behind_it rest = rw usable_is (record {
      ok = rest.ok;
      chain =
          subst
            (Chain (init_spaces s.heap_base spaces (add_space before s hi)).1.mem 0 hi.free_blocks)
            regroup rest.chain;
      free_kept = rest.free_kept;
      used_kept = rest.used_kept;
    })

abbrev starting : HeapInfo → HeapSpace → HeapInfo
starting hi s = record hi {
  free_blocks = s.heap_base;
  used_blocks = 0;
  used_size = 0;
  heap_size = 0;
  free_size = 0;
}

init_first-IsHeap :
    (s : HeapSpace) (spaces : List HeapSpace) (hi : HeapInfo)
    → AllUsable (s ∷ spaces)
    → AllApart (whole_spaces (s ∷ spaces))
    → ((init_first hi (s ∷ spaces)).0 ≡ 0)
      × IsHeap (init_first hi (s ∷ spaces)).1 (whole_spaces (s ∷ spaces)) []
unfolding init_first init_spaces add_space
init_first-IsHeap s spaces hi u apart =
    rw (based, sized)
      (
        rest.ok,
        record {
          free_chain = rw rest.free_kept rest.chain;
          used_chain = rest.used_kept;
          apart = subst AllApart (sym (append-nil (whole_spaces (s ∷ spaces)))) apart;
        },
      )
  where
    based : (s.heap_base == 0) ≡ false
    based = ground (arith, u.0.based)

    sized : (s.heap_size == 0) ≡ false
    sized = ground (arith, u.0.room)

    made :
        init_header 0 s hi.mem s.heap_base
        ≡ record { prev = 0; next = 0; size = (whole_space s).units }
    made = init_header-base 0 s hi.mem u.0 (λ k. u.0.based (sym k))

    rest :
        Started
          (add_space 0 s (starting hi s))
          (init_spaces s.heap_base spaces (add_space 0 s (starting hi s)))
          (whole_spaces (s ∷ spaces))
    rest =
        init_spaces-Started spaces s.heap_base (whole_space s) [] (add_space 0 s (starting hi s))
          refl
          (
            refl,
            u.0.based,
            ap (λ (r : Header). r.prev) made,
            ap (λ (r : Header). r.size) made,
            ap (λ (r : Header). r.next) made,
          )
          (AllFresh-of_AllApart (whole_spaces (s ∷ spaces)) apart) u.1

-- Where each space has an address and room for a header, and the blocks that fill the spaces do not
-- overlap, Heap_Init returns 0, and the free list is that of one block for each space, in their order,
-- and the used list is empty.
pub heap_init-IsHeap :
    (s : HeapSpace) (spaces : List HeapSpace) (hi : HeapInfo)
    → hi.heap_spaces ≡ s ∷ spaces
    → AllUsable (s ∷ spaces)
    → AllApart (whole_spaces (s ∷ spaces))
    → ((heap_init hi).0 ≡ 0) × IsHeap (heap_init hi).1 (whole_spaces (s ∷ spaces)) []
unfolding heap_init
heap_init-IsHeap s spaces hi e u apart =
    subst
      (λ l. ((init_first hi l).0 ≡ 0) × IsHeap (init_first hi l).1 (whole_spaces (s ∷ spaces)) [])
      (sym e) (init_first-IsHeap s spaces hi u apart)
