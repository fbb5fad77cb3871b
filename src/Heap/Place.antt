-- ===== src/Heap/Place.antt =====
-- The place of a block among the free ones, which stand in the order of their addresses.
use common_lib.Prelude.{
  ℕ, zero, suc, ◌<◌, ◌≡◌, ◌≢◌, refl, ap, ◌∙◌, sym, arith, List, [], ◌∷◌, ◌++◌, some, length,
}
use common_lib.Heap.Memory.{Mem, set_prev, set_next}
use common_lib.Heap.Blocks.{Block}
use common_lib.Heap.Chains.{Chain, last_place}
use common_lib.Heap.Insert.{Put}
use common_lib.Heap.Free.{find_place, insert_before, insert_after, only_free}
use common_lib.Heap.{HeapInfo}

abbrev pub AllBelow : ℕ → List Block → Type 0
AllBelow h [] = Unit {0}
AllBelow h (b ∷ bs) = (b.place < h) × AllBelow h bs

abbrev pub AllAbove : ℕ → List Block → Type 0
AllAbove h [] = Unit {0}
AllAbove h (b ∷ bs) = (h < b.place) × AllAbove h bs

-- the block at which the loop stops: the first one above, or the last one
abbrev pub stop : List Block → List Block → ℕ
stop low [] = last_place 0 low
stop low (d ∷ high) = d.place

module _ (m : Mem) (h : ℕ) where
  pub find_place-high :
      (fuel before head : ℕ) (low : List Block) (d : Block) (high : List Block)
      → Chain m before head (low ++ (d ∷ high))
      → AllBelow h low
      → h < d.place
      → length low < fuel
      → find_place fuel m h head ≡ some d.place
  unfolding find_place
  find_place-high zero before head low d high c below above enough = absurd (omega arith)
  find_place-high (suc fuel) before head [] d high c below above enough = ground (arith, c.0)
  find_place-high (suc fuel) before head (a ∷ low) d high c below above enough = ground (
    arith,
    c.0,
    ap (λ x. (m x).next) c.0,
    ap (λ x. find_place fuel m h (m x).next) c.0,
    not_last low c.4,
    find_place-high fuel a.place (m a.place).next low d high c.4 below.1 above (omega arith),
  )
    where
      not_last :
          (xs : List Block)
          → Chain m a.place (m a.place).next (xs ++ (d ∷ high))
          → (m a.place).next ≢ 0
      not_last [] k = λ e. k.1 (sym k.0 ∙ e)
      not_last (x ∷ xs) k = λ e. k.1 (sym k.0 ∙ e)

  pub find_place-low :
      (fuel before head : ℕ) (a : Block) (low : List Block)
      → Chain m before head (a ∷ low)
      → AllBelow h (a ∷ low)
      → length (a ∷ low) < fuel
      → find_place fuel m h head ≡ some (last_place a.place low)
  unfolding find_place
  find_place-low zero before head a low c below enough = absurd (omega arith)
  find_place-low (suc fuel) before head a [] c below enough =
      ground (arith, c.0, ap (λ x. (m x).next) c.0, c.4)
  find_place-low (suc fuel) before head a (d ∷ low) c below enough = ground (
    arith,
    c.0,
    ap (λ x. (m x).next) c.0,
    ap (λ x. find_place fuel m h (m x).next) c.0,
    next_block,
    below.0,
    find_place-low fuel a.place (m a.place).next d low c.4 below.1 (omega arith),
  )
    where
      next_block : (m a.place).next ≢ 0
      next_block = λ e. c.4.1 (sym c.4.0 ∙ e)

module _ (hi : HeapInfo) (b : Block) (size_is : (hi.mem b.place).size ≡ b.units) where
  pub insert_before-Put :
      (p n : ℕ)
      → (hi.mem n).prev ≡ p
      → n ≢ 0
      → p ≢ n
      → p ≢ b.place
      → n ≢ b.place
      → Put hi.mem (insert_before b.place n hi).mem b p n
  unfolding insert_before set_prev set_next
  insert_before-Put p n e n0 pn pb nb = record {
    other = λ c h k l. ground (arith, h, k, l);
    at_before = λ p0. ground arith;
    at_after = λ _. ground arith;
    at_block = ground (arith, size_is);
  }

  pub insert_after-Put :
      (p : ℕ)
      → (hi.mem p).next ≡ 0
      → p ≢ 0
      → p ≢ b.place
      → Put hi.mem (insert_after b.place p hi).mem b p 0
  unfolding insert_after set_prev set_next
  insert_after-Put p e p0 pb = record {
    other = λ c h k l. ground (arith, h, k, l);
    at_before = λ _. ground arith;
    at_after = λ n0. absurd (n0 refl);
    at_block = ground (arith, size_is);
  }

  pub only_free-Put : Put hi.mem (only_free b.place hi).mem b 0 0
  unfolding only_free set_prev set_next
  only_free-Put = record {
    other = λ c h k l. ground (arith, l);
    at_before = λ p0. absurd (p0 refl);
    at_after = λ n0. absurd (n0 refl);
    at_block = ground (arith, size_is);
  }
