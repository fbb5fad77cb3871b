-- ===== src/Heap/Insert.antt =====
-- A block between two parts of a list.
use mathlib.Core.Path.{subst}
use common_lib.Prelude.{ℕ, ◌≡◌, ◌≢◌, refl, ap, ◌∙◌, sym, List, [], ◌∷◌, ◌++◌}
use common_lib.Heap.Memory.{Header, Mem}
use common_lib.Heap.Blocks.{Block, Fresh}
use common_lib.Heap.Chains.{Chain, Same, Chain-tail, AllFresh, last_place, first_place, Chain-head}
use common_lib.Heap.Unlink.{Fresh-first_place, Fresh-last_place}
use common_lib.Heap.Invariant.{Fresh-right}

-- where a list begins with a block behind its first part
abbrev pub head_with : Block → List Block → ℕ → ℕ
head_with b [] head = b.place
head_with b (a ∷ low) head = head

pub Same-of_three :
    (m m' : Mem) (p q r : ℕ) (bs : List Block)
    → ((c : ℕ) → c ≢ p → c ≢ q → c ≢ r → m' c ≡ m c)
    → Fresh p bs
    → Fresh q bs
    → Fresh r bs
    → Same m m' bs
Same-of_three m m' p q r [] only f g h = tt
Same-of_three m m' p q r (b ∷ bs) only f g h = (
  only b.place (λ e. f.0 (sym e)) (λ e. g.0 (sym e)) (λ e. h.0 (sym e)),
  Same-of_three m m' p q r bs only f.1 g.1 h.1,
)

Fresh-without :
    (a : ℕ) (xs : List Block) (b : Block) (ys : List Block)
    → Fresh a (xs ++ (b ∷ ys))
    → Fresh a (xs ++ ys)
Fresh-without a [] b ys f = f.1
Fresh-without a (x ∷ xs) b ys f = (f.0, Fresh-without a xs b ys f.1)

-- what a memory is once the block is in
pub record Put (m m' : Mem) (b : Block) (p n : ℕ) : Type 0 where
  pub other : (c : ℕ) → c ≢ p → c ≢ n → c ≢ b.place → m' c ≡ m c
  pub at_before : p ≢ 0 → m' p ≡ record (m p) { next = b.place }
  pub at_after : n ≢ 0 → m' n ≡ record (m n) { prev = b.place }
  pub at_block : m' b.place ≡ record { prev = p; next = n; size = b.units }

module _ (m m' : Mem) (b : Block) (b0 : b.place ≢ 0) where
  put_rest :
      (p : ℕ) (high : List Block)
      → Chain m p (first_place high) high
      → AllFresh (b ∷ high)
      → Fresh p (b ∷ high)
      → Put m m' b p (first_place high)
      → Chain m' b.place (first_place high) high
  put_rest p [] c f g put = refl
  put_rest p (d ∷ high) (e, d0, q, z, rest) f g put = (
    refl,
    d0,
    ap (λ (r : Header). r.prev) moved,
    ap (λ (r : Header). r.size) moved ∙ z,
    Chain-tail m m' d.place high (ap (λ (r : Header). r.next) moved)
        (Same-of_three m m' p d.place b.place high put.other g.1.1 f.1.0 f.0.1) rest,
  )
    where
      moved : m' d.place ≡ record (m d.place) { prev = b.place }
      moved = put.at_after d0

  pub Put-Chain :
      (high : List Block) (before head : ℕ) (low : List Block)
      → Chain m before head (low ++ high)
      → AllFresh (low ++ (b ∷ high))
      → Fresh before (low ++ (b ∷ high))
      → Put m m' b (last_place before low) (first_place high)
      → Chain m' before (head_with b low head) (low ++ (b ∷ high))
  Put-Chain high before head [] c f g put = (
    refl,
    b0,
    ap (λ (r : Header). r.prev) put.at_block,
    ap (λ (r : Header). r.size) put.at_block,
    subst (λ k. Chain m' b.place k high) (sym (ap (λ (r : Header). r.next) put.at_block))
        (put_rest before high
          (subst (λ k. Chain m before k high) (Chain-head m before head high c) c) f g put),
  )
  Put-Chain high before head (a ∷ []) (h, a0, p, z, rest) f g put = (
    h,
    a0,
    ap (λ (r : Header). r.prev) moved ∙ p,
    ap (λ (r : Header). r.size) moved ∙ z,
    subst (λ k. Chain m' a.place k (b ∷ high)) (sym (ap (λ (r : Header). r.next) moved))
        (Put-Chain high a.place (m a.place).next [] rest f.1 f.0 put),
  )
    where
      moved : m' a.place ≡ record (m a.place) { next = b.place }
      moved = put.at_before a0
  Put-Chain high before head (a ∷ d ∷ low) (h, a0, p, z, rest) f g put = (
    h,
    a0,
    ap (λ (r : Header). r.prev) same ∙ p,
    ap (λ (r : Header). r.size) same ∙ z,
    subst (λ k. Chain m' a.place k (d ∷ low ++ (b ∷ high))) (sym (ap (λ (r : Header). r.next) same))
        (Put-Chain high a.place (m a.place).next (d ∷ low) rest f.1 f.0 put),
  )
    where
      differs : (xs : List Block) → Fresh a.place (xs ++ (b ∷ high)) → a.place ≢ b.place
      differs [] k = k.0
      differs (x ∷ xs) k = differs xs k.1

      same : m' a.place ≡ m a.place
      same =
          put.other a.place (Fresh-last_place a.place d low (b ∷ high) f.0)
            (Fresh-first_place a.place high a0 (Fresh-right a.place (d ∷ low) (b ∷ high) f.0).1)
            (differs (d ∷ low) f.0)
