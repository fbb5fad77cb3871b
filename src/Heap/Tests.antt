-- ===== src/Heap/Tests.antt =====
-- Runs of the heap and instances of its theorems.
use common_lib.Prelude.{
  ℕ, ◌≡◌, ◌==◌, inl, inr, refl, arith, List, [], ◌∷◌, ◌++◌, Option, none, some, if◌then◌else◌,
}
use common_lib.Heap.Memory.{Header}
use common_lib.Heap.Blocks.{Block}
use common_lib.Heap.FirstFit.{first_fit}
use common_lib.Heap.Invariant.{IsHeap}
use common_lib.Heap.Serve.{Served, heap_alloc-first_fit}
use common_lib.Heap.Spaces.{whole_spaces}
use common_lib.Heap.Start.{heap_init-IsHeap}
use common_lib.Heap.Around.{freed, Released}
use common_lib.Heap.Merge.{absorb}
use common_lib.Heap.Release.{heap_free-freed}
use common_lib.Heap.Free.{address_within_heap, heap_free}
use common_lib.Heap.{HeapSpace, HeapInfo, heap_alloc, heap_info_init, heap_init}

abbrev no_header : Header
no_header = record { prev = 0; next = 0; size = 0 }

-- free blocks at 100 and 160, and a used one at 300
abbrev three_blocks : HeapInfo
three_blocks = record {
  mem = λ a.
      if a == 100
      then record { prev = 0; next = 160; size = 2 }
      else if a == 160
      then record { prev = 100; next = 0; size = 9 }
      else if a == 300
      then record { prev = 0; next = 0; size = 1 }
      else no_header;
  heap_spaces = [];
  free_blocks = 100;
  used_blocks = 300;
  heap_size = 224;
  free_size = 132;
  used_size = 12;
}

abbrev free_two : List Block
free_two = record { place = 100; units = 2 } ∷ record { place = 160; units = 9 } ∷ []

abbrev used_one : List Block
used_one = record { place = 300; units = 1 } ∷ []

three_blocks-IsHeap : IsHeap three_blocks free_two used_one
three_blocks-IsHeap = record {
  free_chain = (refl, omega arith, refl, refl, (refl, omega arith, refl, refl, refl));
  used_chain = (refl, omega arith, refl, refl, refl);
  apart = ((inl (omega arith), (inl (omega arith), tt)), ((inl (omega arith), tt), (tt, tt)));
}

heap_alloc-first_fit_example :
    Served three_blocks 30 used_one (heap_alloc 3 three_blocks 30) (first_fit 3 free_two)
heap_alloc-first_fit_example =
    heap_alloc-first_fit 30 3 three_blocks free_two used_one three_blocks-IsHeap (omega arith)
      (omega arith)

-- the end of the second block
fit_at_end :
    first_fit 3 free_two
    ≡ some (
      record { place = 232; units = 3 },
      record { place = 100; units = 2 } ∷ record { place = 160; units = 5 } ∷ [],
    )
unfolding first_fit
fit_at_end = refl

-- a heap of 120 bytes, and one request
one_space : HeapInfo
one_space = record {
  mem = λ a. no_header;
  heap_spaces = [];
  free_blocks = 0;
  used_blocks = 0;
  heap_size = 0;
  free_size = 0;
  used_size = 0;
}

address : Option (ℕ × HeapInfo) → ℕ
address none = 0
address (some (a, hi)) = a

alloc_at_end : address (heap_alloc 2 (heap_init (heap_info_init one_space 100 220)).1 20) ≡ 196
unfolding address heap_alloc heap_init heap_info_init one_space
alloc_at_end = refl

abbrev space_low : HeapSpace
space_low = record { heap_base = 100; heap_size = 130 }

abbrev space_high : HeapSpace
space_high = record { heap_base = 400; heap_size = 60 }

abbrev not_started : HeapInfo
not_started = record {
  mem = λ a. no_header;
  heap_spaces = space_low ∷ space_high ∷ [];
  free_blocks = 7;
  used_blocks = 7;
  heap_size = 7;
  free_size = 7;
  used_size = 7;
}

heap_init-IsHeap_example :
    ((heap_init not_started).0 ≡ 0)
    × IsHeap (heap_init not_started).1 (whole_spaces (space_low ∷ space_high ∷ [])) []
heap_init-IsHeap_example =
    heap_init-IsHeap space_low (space_high ∷ []) not_started refl
      (
        record { based = omega arith; room = omega arith; narrow = omega arith },
        (record { based = omega arith; room = omega arith; narrow = omega arith }, tt),
      )
      ((inl (omega arith), tt), (tt, tt))

-- a used block at 136, with free ones right before and behind it, and another used one at 300
abbrev fragmented : HeapInfo
fragmented = record {
  mem = λ a.
      if a == 100
      then record { prev = 0; next = 196; size = 2 }
      else if a == 196
      then record { prev = 100; next = 0; size = 3 }
      else if a == 300
      then record { prev = 0; next = 136; size = 1 }
      else if a == 136
      then record { prev = 300; next = 0; size = 4 }
      else no_header;
  heap_spaces = record { heap_base = 100; heap_size = 240 } ∷ [];
  free_blocks = 100;
  used_blocks = 300;
  heap_size = 240;
  free_size = 60;
  used_size = 60;
}

abbrev middle_block : Block
middle_block = record { place = 136; units = 4 }

abbrev upper_free : List Block
upper_free = record { place = 196; units = 3 } ∷ []

abbrev lower_free : List Block
lower_free = record { place = 100; units = 2 } ∷ []

fragmented-IsHeap : IsHeap fragmented (lower_free ++ upper_free) (used_one ++ (middle_block ∷ []))
fragmented-IsHeap = record {
  free_chain = (refl, omega arith, refl, refl, (refl, omega arith, refl, refl, refl));
  used_chain = (refl, omega arith, refl, refl, (refl, omega arith, refl, refl, refl));
  apart = (
    (inl (omega arith), (inl (omega arith), (inl (omega arith), tt))),
    ((inl (omega arith), (inr (omega arith), tt)), ((inr (omega arith), tt), (tt, tt))),
  );
}

heap_free-freed_example :
    Released (heap_free 4 fragmented 148) (freed lower_free middle_block upper_free) used_one
unfolding address_within_heap
heap_free-freed_example =
    heap_free-freed 4 fragmented lower_free upper_free used_one middle_block [] fragmented-IsHeap
      (omega arith, tt) (omega arith, tt) refl (omega arith, (omega arith, tt)) (omega arith)

-- all three blocks as one
freed_whole : freed lower_free middle_block upper_free ≡ record { place = 100; units = 11 } ∷ []
unfolding freed absorb
freed_whole = refl
