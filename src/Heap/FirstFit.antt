-- ===== src/Heap/FirstFit.antt =====
-- First fit on the list of the free blocks, and the loop of Heap_Alloc that finds it.
use common_lib.Prelude.{
  ℕ, zero, suc, ◌+◌, ◌-◌, ◌≤◌, ◌<◌, ◌≡◌, ◌⊎◌, inl, inr, refl, ap, arith, List, [], ◌∷◌, ◌++◌,
  Option, none, some, leb, if◌then◌else◌, Bool-cases, true, length,
}
use common_lib.Heap.Memory.{Mem}
use common_lib.Heap.Blocks.{Block}
use common_lib.Heap.Chains.{Chain}
use common_lib.Heap.{find_fit, headers_on}

-- what is used of a block for a request of `n` headers, and what is left of it
abbrev pub used_part : ℕ → Block → Block
used_part n b =
    if leb (b.units - n) 1
    then b
    else record { place = headers_on b.place (b.units - (n + 1) + 1); units = n }

abbrev pub left_part : ℕ → Block → List Block
left_part n b =
    if leb (b.units - n) 1 then [] else record { place = b.place; units = b.units - (n + 1) } ∷ []

abbrev with_block : Block → Option (Block × List Block) → Option (Block × List Block)
with_block b none = none
with_block b (some (u, bs)) = some (u, b ∷ bs)

-- The first block that is large enough gives the used one, and the others stay.
unfoldable pub first_fit : ℕ → List Block → Option (Block × List Block)
first_fit n [] = none
first_fit n (b ∷ bs) =
    if leb n b.units
    then some (used_part n b, left_part n b ++ bs)
    else with_block b (first_fit n bs)

-- All blocks are too small.
abbrev pub TooSmall : ℕ → List Block → Type 0
TooSmall n [] = Unit {0}
TooSmall n (b ∷ bs) = (b.units < n) × TooSmall n bs

-- A list at the first block that fits.
pub record Fit (n : ℕ) (bs : List Block) : Type 0 where
  pub pre : List Block
  pub block : Block
  pub post : List Block
  pub parts : bs ≡ pre ++ (block ∷ post)
  pub small : TooSmall n pre
  pub fits : n ≤ block.units
  pub fitted : first_fit n bs ≡ some (used_part n block, pre ++ (left_part n block ++ post))

Fit-cons : (n : ℕ) (b : Block) (bs : List Block) → b.units < n → Fit n bs → Fit n (b ∷ bs)
unfolding first_fit
Fit-cons n b bs h f = record {
  pre = b ∷ f.pre;
  block = f.block;
  post = f.post;
  parts = ap (λ l. b ∷ l) f.parts;
  small = (h, f.small);
  fits = f.fits;
  fitted = ground (arith, f.fitted);
}

Fit-here : (n : ℕ) (b : Block) (bs : List Block) → leb n b.units ≡ true → Fit n (b ∷ bs)
unfolding first_fit
Fit-here n b bs h = record {
  pre = [];
  block = b;
  post = bs;
  parts = refl;
  small = tt;
  fits = ground arith;
  fitted = rw h;
}

pub first_fit-cases :
    (n : ℕ) (bs : List Block) → Fit n bs ⊎ ((first_fit n bs ≡ none) × TooSmall n bs)
first_fit-cases n [] = inr (unfold first_fit in refl, tt)
first_fit-cases n (b ∷ bs) = elim (Bool-cases (leb n b.units)) [
  | inl large ↦ inl (Fit-here n b bs large)
  | inr small ↦ elim (first_fit-cases n bs) [
    | inl f ↦ inl (Fit-cons n b bs (ground arith) f)
    | inr (e, s) ↦ inr (unfold first_fit in ground (arith, e), (ground arith, s))
  ]
]

module _ (m : Mem) (n : ℕ) where
  pub find_fit-of_Fit :
      (fuel before head : ℕ) (pre : List Block) (b : Block) (post : List Block)
      → Chain m before head (pre ++ (b ∷ post))
      → TooSmall n pre
      → n ≤ b.units
      → length pre < fuel
      → find_fit fuel m n head ≡ some b.place
  unfolding find_fit
  find_fit-of_Fit zero before head pre b post c s h k = absurd (omega arith)
  find_fit-of_Fit (suc fuel) before head [] b post c s h k =
      ground (arith, c.0, c.1, c.3, ap (λ a. (m a).size) c.0)
  find_fit-of_Fit (suc fuel) before head (a ∷ pre) b post c s h k = ground (
    arith,
    c.0,
    c.1,
    c.3,
    s.0,
    ap (λ x. (m x).size) c.0,
    ap (λ x. find_fit fuel m n (m x).next) c.0,
    find_fit-of_Fit fuel a.place (m a.place).next pre b post c.4 s.1 h (omega arith),
  )

  pub find_fit-of_TooSmall :
      (fuel before head : ℕ) (bs : List Block)
      → Chain m before head bs
      → TooSmall n bs
      → length bs < fuel
      → find_fit fuel m n head ≡ some 0
  unfolding find_fit
  find_fit-of_TooSmall zero before head bs c s k = absurd (omega arith)
  find_fit-of_TooSmall (suc fuel) before head [] c s k = ground arith
  find_fit-of_TooSmall (suc fuel) before head (b ∷ bs) c s k = ground (
    arith,
    c.0,
    c.1,
    c.3,
    s.0,
    ap (λ x. (m x).size) c.0,
    ap (λ x. find_fit fuel m n (m x).next) c.0,
    find_fit-of_TooSmall fuel b.place (m b.place).next bs c.4 s.1 (omega arith),
  )
