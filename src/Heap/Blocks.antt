-- ===== src/Heap/Blocks.antt =====
-- Blocks and lists of blocks: what a list of headers stands for, and when blocks do not overlap.
use common_lib.Prelude.{ℕ, ◌+◌, ◌≤◌, ◌≢◌, ◌⊎◌, inl, inr, arith, List, [], ◌∷◌, ◌++◌}
use common_lib.Heap.{headers_on}

-- the address of a header, and the size that it holds
pub record Block : Type 0 where
  pub place : ℕ
  pub units : ℕ

-- where the block ends, its header included
abbrev pub block_end : Block → ℕ
block_end b = headers_on b.place (b.units + 1)

-- The first lies before the second, or behind it.
abbrev pub Apart : Block → Block → Type 0
Apart b c = (block_end b ≤ c.place) ⊎ (block_end c ≤ b.place)

abbrev pub ApartFrom : Block → List Block → Type 0
ApartFrom b [] = Unit {0}
ApartFrom b (c ∷ cs) = Apart b c × ApartFrom b cs

-- No two blocks of a list overlap.
abbrev pub AllApart : List Block → Type 0
AllApart [] = Unit {0}
AllApart (b ∷ bs) = ApartFrom b bs × AllApart bs

-- No header of the list is at the address.
abbrev pub Fresh : ℕ → List Block → Type 0
Fresh a [] = Unit {0}
Fresh a (b ∷ bs) = (a ≢ b.place) × Fresh a bs

-- the part of one block that another takes
abbrev pub Within : Block → Block → Type 0
Within b c = (c.place ≤ b.place) × (block_end b ≤ block_end c)

pub ApartFrom-Within :
    (b c : Block) (bs : List Block) → Within b c → ApartFrom c bs → ApartFrom b bs
ApartFrom-Within b c [] w a = tt
ApartFrom-Within b c (d ∷ bs) w (a, rest) = (nearer a, ApartFrom-Within b c bs w rest)
  where
    nearer : Apart c d → Apart b d
    nearer (inl before) = inl (omega arith)
    nearer (inr behind) = inr (omega arith)

pub Fresh-of_ApartFrom : (b : Block) (bs : List Block) → ApartFrom b bs → Fresh b.place bs
Fresh-of_ApartFrom b [] a = tt
Fresh-of_ApartFrom b (c ∷ bs) (a, rest) = (apart_ne a, Fresh-of_ApartFrom b bs rest)
  where
    apart_ne : Apart b c → b.place ≢ c.place
    apart_ne (inl before) = omega arith
    apart_ne (inr behind) = omega arith

pub ApartFrom-append :
    (b : Block) (xs ys : List Block) → ApartFrom b xs → ApartFrom b ys → ApartFrom b (xs ++ ys)
ApartFrom-append b [] ys hx hy = hy
ApartFrom-append b (x ∷ xs) ys hx hy = (hx.0, ApartFrom-append b xs ys hx.1 hy)

pub ApartFrom-left : (b : Block) (xs ys : List Block) → ApartFrom b (xs ++ ys) → ApartFrom b xs
ApartFrom-left b [] ys h = tt
ApartFrom-left b (x ∷ xs) ys h = (h.0, ApartFrom-left b xs ys h.1)

pub ApartFrom-right : (b : Block) (xs ys : List Block) → ApartFrom b (xs ++ ys) → ApartFrom b ys
ApartFrom-right b [] ys h = h
ApartFrom-right b (x ∷ xs) ys h = ApartFrom-right b xs ys h.1

Apart-sym : (b c : Block) → Apart b c → Apart c b
Apart-sym b c (inl before) = inr before
Apart-sym b c (inr behind) = inl behind

-- a block of the middle of a list, from all the others
pub ApartFrom-middle :
    (xs : List Block) (b : Block) (ys : List Block)
    → AllApart (xs ++ (b ∷ ys))
    → ApartFrom b (xs ++ ys)
ApartFrom-middle [] b ys h = h.0
ApartFrom-middle (x ∷ xs) b ys h =
    (Apart-sym x b (ApartFrom-right x xs (b ∷ ys) h.0).0, ApartFrom-middle xs b ys h.1)

pub AllApart-remove :
    (xs : List Block) (b : Block) (ys : List Block)
    → AllApart (xs ++ (b ∷ ys))
    → AllApart (xs ++ ys)
AllApart-remove [] b ys h = h.1
AllApart-remove (x ∷ xs) b ys h = (
  ApartFrom-append x xs ys (ApartFrom-left x xs (b ∷ ys) h.0) (ApartFrom-right x xs (b ∷ ys) h.0).1,
  AllApart-remove xs b ys h.1,
)

pub AllApart-insert :
    (xs : List Block) (b : Block) (ys : List Block)
    → ApartFrom b (xs ++ ys)
    → AllApart (xs ++ ys)
    → AllApart (xs ++ (b ∷ ys))
AllApart-insert [] b ys a h = (a, h)
AllApart-insert (x ∷ xs) b ys a h = (
  ApartFrom-append x xs (b ∷ ys) (ApartFrom-left x xs ys h.0)
      (Apart-sym b x a.0, ApartFrom-right x xs ys h.0),
  AllApart-insert xs b ys a.1 h.1,
)
