-- ===== src/Heap/Spaces.antt =====
-- The headers that Heap_Init writes, a space at a time.
use mathlib.Core.Path.{subst}
use common_lib.Prelude.{
  ℕ, ◌-◌, ◌/◌, ◌≤◌, ◌<◌, ◌≡◌, ◌≢◌, refl, ap, ◌∙◌, sym, arith, List, [], ◌∷◌, ◌++◌, sub32,
}
use common_lib.Heap.Memory.{Header, Mem, set_prev, set_next, set_size}
use common_lib.Heap.Blocks.{Block, Fresh}
use common_lib.Heap.Chains.{Chain, AllFresh, last_place}
use common_lib.Heap.Unlink.{Fresh-last_place}
use common_lib.Heap.{header_size, HeapSpace, init_header}

-- A space has an address, and room for a header and at most all addresses.
pub record Usable (s : HeapSpace) : Type 0 where
  pub based : s.heap_base ≢ 0
  pub room : header_size ≤ s.heap_size
  pub narrow : s.heap_size < 4294967296

abbrev pub AllUsable : List HeapSpace → Type 0
AllUsable [] = Unit {0}
AllUsable (s ∷ spaces) = Usable s × AllUsable spaces

-- the block that fills a space
abbrev pub whole_space : HeapSpace → Block
whole_space s = record { place = s.heap_base; units = s.heap_size / header_size - 1 }

abbrev pub whole_spaces : List HeapSpace → List Block
whole_spaces [] = []
whole_spaces (s ∷ spaces) = whole_space s ∷ whole_spaces spaces

-- a block behind the last one of a list
module _ (m m' : Mem) (b : Block) (b0 : b.place ≢ 0) where
  pub Chain-snoc :
      (before head : ℕ) (a : Block) (pre : List Block)
      → Chain m before head (a ∷ pre)
      → AllFresh ((a ∷ pre) ++ (b ∷ []))
      → ((c : ℕ) → c ≢ last_place a.place pre → c ≢ b.place → m' c ≡ m c)
      → m' (last_place a.place pre) ≡ record (m (last_place a.place pre)) { next = b.place }
      → m' b.place ≡ record { prev = last_place a.place pre; next = 0; size = b.units }
      → Chain m' before head ((a ∷ pre) ++ (b ∷ []))
  Chain-snoc before head a [] (h, a0, p, z, rest) f other at_last at_new = (
    h,
    a0,
    ap (λ (r : Header). r.prev) at_last ∙ p,
    ap (λ (r : Header). r.size) at_last ∙ z,
    (
      ap (λ (r : Header). r.next) at_last,
      b0,
      ap (λ (r : Header). r.prev) at_new,
      ap (λ (r : Header). r.size) at_new,
      ap (λ (r : Header). r.next) at_new,
    ),
  )
  Chain-snoc before head a (d ∷ pre) (h, a0, p, z, rest) f other at_last at_new = (
    h,
    a0,
    ap (λ (r : Header). r.prev) kept ∙ p,
    ap (λ (r : Header). r.size) kept ∙ z,
    subst (λ k. Chain m' a.place k ((d ∷ pre) ++ (b ∷ []))) (sym (ap (λ (r : Header). r.next) kept))
        (Chain-snoc a.place (m a.place).next d pre rest f.1 other at_last at_new),
  )
    where
      differs : (xs : List Block) → Fresh a.place (xs ++ (b ∷ [])) → a.place ≢ b.place
      differs [] g = g.0
      differs (x ∷ xs) g = differs xs g.1

      kept : m' a.place ≡ m a.place
      kept = other a.place (Fresh-last_place a.place d pre (b ∷ []) f.0) (differs (d ∷ pre) f.0)

module _ (before : ℕ) (s : HeapSpace) (m : Mem) (usable : Usable s) where
  units_of : sub32 (s.heap_size / header_size) 1 ≡ s.heap_size / header_size - 1
  unfolding sub32
  units_of = omega (arith, usable.room, usable.narrow)

  pub init_header-else : (c : ℕ) → c ≢ before → c ≢ s.heap_base → init_header before s m c ≡ m c
  unfolding init_header set_prev set_next set_size
  init_header-else c h k = ground arith

  pub init_header-before :
      before ≢ 0
      → before ≢ s.heap_base
      → init_header before s m before ≡ record (m before) { next = s.heap_base }
  unfolding init_header set_prev set_next set_size
  init_header-before h k = ground arith

  pub init_header-base :
      before ≢ s.heap_base
      → init_header before s m s.heap_base
        ≡ record { prev = before; next = 0; size = (whole_space s).units }
  unfolding init_header set_prev set_next set_size
  init_header-base h = ground (arith, units_of)

pub last_place-snoc :
    (before : ℕ) (pre : List Block) (b : Block) → last_place before (pre ++ (b ∷ [])) ≡ b.place
last_place-snoc before [] b = refl
last_place-snoc before (a ∷ pre) b = last_place-snoc a.place pre b

pub last_place-new :
    (a : Block) (pre : List Block) (b : Block)
    → AllFresh ((a ∷ pre) ++ (b ∷ []))
    → last_place a.place pre ≢ b.place
last_place-new a [] b f = f.0.0
last_place-new a (d ∷ pre) b f = last_place-new d pre b f.1
