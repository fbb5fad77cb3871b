-- ===== src/Heap/Chains.antt =====
-- Doubly linked lists of blocks in memory, and what the writes of heap.c make of them.
use common_lib.Prelude.{ℕ, ◌≡◌, ◌≢◌, ap, ◌∙◌, sym, List, [], ◌∷◌, ◌++◌}
use mathlib.Core.Path.{subst}
use common_lib.Heap.Memory.{Header, Mem}
use common_lib.Heap.Blocks.{Block, Fresh, AllApart, Fresh-of_ApartFrom}

-- From `head`, whose `prev` is `before`, the headers lead through the blocks to NULL.
abbrev pub Chain : Mem → ℕ → ℕ → List Block → Type 0
Chain m before head [] = head ≡ 0
Chain m before head (b ∷ bs) =
    (head ≡ b.place)
    × (b.place ≢ 0)
    × ((m b.place).prev ≡ before)
    × ((m b.place).size ≡ b.units)
    × Chain m b.place (m b.place).next bs

-- The headers of the blocks are the same in both memories.
abbrev pub Same : Mem → Mem → List Block → Type 0
Same m m' [] = Unit {0}
Same m m' (b ∷ bs) = (m' b.place ≡ m b.place) × Same m m' bs

pub Chain-Same :
    (m m' : Mem) (before head : ℕ) (bs : List Block)
    → Same m m' bs
    → Chain m before head bs
    → Chain m' before head bs
Chain-Same m m' before head [] s c = c
Chain-Same m m' before head (b ∷ bs) (e, s) (h, n, p, z, c) = (
  h,
  n,
  ap (λ (r : Header). r.prev) e ∙ p,
  ap (λ (r : Header). r.size) e ∙ z,
  Chain-Same m m' b.place (m' b.place).next bs s
      (subst (λ k. Chain m b.place k bs) (sym (ap (λ (r : Header). r.next) e)) c),
)

-- All addresses of a list differ.
abbrev pub AllFresh : List Block → Type 0
AllFresh [] = Unit {0}
AllFresh (b ∷ bs) = Fresh b.place bs × AllFresh bs

pub AllFresh-of_AllApart : (bs : List Block) → AllApart bs → AllFresh bs
AllFresh-of_AllApart [] h = tt
AllFresh-of_AllApart (b ∷ bs) h = (Fresh-of_ApartFrom b bs h.0, AllFresh-of_AllApart bs h.1)

-- A memory that differs at two addresses only.
pub Same-of_two :
    (m m' : Mem) (a a' : ℕ) (bs : List Block)
    → ((c : ℕ) → c ≢ a → c ≢ a' → m' c ≡ m c)
    → Fresh a bs
    → Fresh a' bs
    → Same m m' bs
Same-of_two m m' a a' [] only f g = tt
Same-of_two m m' a a' (b ∷ bs) only f g =
    (only b.place (λ e. f.0 (sym e)) (λ e. g.0 (sym e)), Same-of_two m m' a a' bs only f.1 g.1)

-- the address before the end of a list, or `before` it
abbrev pub last_place : ℕ → List Block → ℕ
last_place before [] = before
last_place before (b ∷ bs) = last_place b.place bs

abbrev pub first_place : List Block → ℕ
first_place [] = 0
first_place (b ∷ bs) = b.place

pub Chain-head :
    (m : Mem) (before head : ℕ) (bs : List Block) → Chain m before head bs → head ≡ first_place bs
Chain-head m before head [] c = c
Chain-head m before head (b ∷ bs) c = c.0

module _ (m : Mem) (b : Block) (post : List Block) where
  pub prev-last_place :
      (before head : ℕ) (pre : List Block)
      → Chain m before head (pre ++ (b ∷ post))
      → (m b.place).prev ≡ last_place before pre
  prev-last_place before head [] c = c.2
  prev-last_place before head (a ∷ pre) c = prev-last_place a.place (m a.place).next pre c.4

  pub next-first_place :
      (before head : ℕ) (pre : List Block)
      → Chain m before head (pre ++ (b ∷ post))
      → (m b.place).next ≡ first_place post
  next-first_place before head [] c = Chain-head m b.place (m b.place).next post c.4
  next-first_place before head (a ∷ pre) c = next-first_place a.place (m a.place).next pre c.4

  pub size-units :
      (before head : ℕ) (pre : List Block)
      → Chain m before head (pre ++ (b ∷ post))
      → (m b.place).size ≡ b.units
  size-units before head [] c = c.3
  size-units before head (a ∷ pre) c = size-units a.place (m a.place).next pre c.4

-- The rest of a list, from the header before it.
pub Chain-tail :
    (m m' : Mem) (a : ℕ) (bs : List Block)
    → (m' a).next ≡ (m a).next
    → Same m m' bs
    → Chain m a (m a).next bs
    → Chain m' a (m' a).next bs
Chain-tail m m' a bs e s c =
    subst (λ k. Chain m' a k bs) (sym e) (Chain-Same m m' a (m a).next bs s c)
