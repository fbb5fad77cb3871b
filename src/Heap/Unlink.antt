-- ===== src/Heap/Unlink.antt =====
-- Taking a block out of a list, as Heap_Alloc and Heap_Free do it.
use mathlib.Core.Path.{subst}
use common_lib.Prelude.{ℕ, ◌≡◌, ◌≢◌, refl, ap, ◌∙◌, sym, arith, List, [], ◌∷◌, ◌++◌}
use common_lib.Heap.Memory.{Header, Mem}
use common_lib.Heap.Blocks.{Block, Fresh}
use common_lib.Heap.Chains.{
  Chain, Chain-tail, Same-of_two, AllFresh, last_place, first_place, prev-last_place,
  next-first_place,
}
use common_lib.Heap.{unlink}

module _ (m : Mem) (h p n : ℕ) (prev_is : (m h).prev ≡ p) (next_is : (m h).next ≡ n) where
  pub unlink-else : (c : ℕ) → c ≢ p → c ≢ n → unlink m h c ≡ m c
  unfolding unlink
  unlink-else c hp hn = ground arith

  unlink-next : n ≢ 0 → n ≢ p → unlink m h n ≡ record (m n) { prev = p }
  unfolding unlink
  unlink-next n0 np = ground arith

  pub unlink-size : (c : ℕ) → (unlink m h c).size ≡ (m c).size
  unfolding unlink
  unlink-size c = ground arith

  unlink-prev : p ≢ 0 → p ≢ n → unlink m h p ≡ record (m p) { next = n }
  unfolding unlink
  unlink-prev p0 pn = ground arith

pub Fresh-first_place : (a : ℕ) (bs : List Block) → a ≢ 0 → Fresh a bs → a ≢ first_place bs
Fresh-first_place a [] n f = n
Fresh-first_place a (b ∷ bs) n f = f.0

pub Fresh-last_place :
    (a : ℕ) (b : Block) (bs cs : List Block) → Fresh a (b ∷ bs ++ cs) → a ≢ last_place b.place bs
Fresh-last_place a b [] cs f = f.0
Fresh-last_place a b (c ∷ bs) cs f = Fresh-last_place a c bs cs f.1

Fresh-right : (a : ℕ) (xs ys : List Block) → Fresh a (xs ++ ys) → Fresh a ys
Fresh-right a [] ys f = f
Fresh-right a (x ∷ xs) ys f = Fresh-right a xs ys f.1

-- where the list begins once a block behind `pre` is out
abbrev pub head_without : Mem → Block → List Block → ℕ → ℕ
head_without m b [] head = (m b.place).next
head_without m b (a ∷ pre) head = head

unlink-Chain_first :
    (m : Mem) (b : Block) (before head : ℕ) (post : List Block)
    → Chain m before head (b ∷ post)
    → AllFresh (b ∷ post)
    → Fresh before (b ∷ post)
    → Chain (unlink m b.place) before (m b.place).next post
unlink-Chain_first m b before head [] c f g = c.4
unlink-Chain_first m b before head (d ∷ cs) (_, _, p, _, (n, n0, q, z, rest)) f g = (
  n,
  n0,
  ap (λ (r : Header). r.prev) moved,
  ap (λ (r : Header). r.size) moved ∙ z,
  Chain-tail m m' d.place cs (ap (λ (r : Header). r.next) moved)
      (Same-of_two m m' before d.place cs (unlink-else m b.place before d.place p n) g.1.1 f.1.0)
      rest,
)
  where
    m' : Mem
    m' = unlink m b.place

    moved : unlink m b.place d.place ≡ record (m d.place) { prev = before }
    moved = unlink-next m b.place before d.place p n n0 (λ e. g.1.0 (sym e))

-- A block leaves its list, and the others stay as they were.
pub unlink-Chain :
    (m : Mem) (b : Block) (post : List Block) (before head : ℕ) (pre : List Block)
    → Chain m before head (pre ++ (b ∷ post))
    → AllFresh (pre ++ (b ∷ post))
    → Fresh before (pre ++ (b ∷ post))
    → Chain (unlink m b.place) before (head_without m b pre head) (pre ++ post)
unlink-Chain m b post before head [] c f g = unlink-Chain_first m b before head post c f g
unlink-Chain m b post before head (a ∷ []) (h, a0, p, z, rest) f g = (
  h,
  a0,
  ap (λ (r : Header). r.prev) moved ∙ p,
  ap (λ (r : Header). r.size) moved ∙ z,
  subst (λ k. Chain (unlink m b.place) a.place k post) (sym (ap (λ (r : Header). r.next) moved))
      (unlink-Chain m b post a.place (m a.place).next [] rest f.1 f.0),
)
  where
    moved : unlink m b.place a.place ≡ record (m a.place) { next = (m b.place).next }
    moved =
        unlink-prev m b.place a.place (m b.place).next
          (prev-last_place m b post a.place (m a.place).next [] rest) refl a0
          (rw (next-first_place m b post a.place (m a.place).next [] rest)
            (Fresh-first_place a.place post a0 f.0.1))
unlink-Chain m b post before head (a ∷ d ∷ pre) (h, a0, p, z, rest) f g = (
  h,
  a0,
  ap (λ (r : Header). r.prev) same ∙ p,
  ap (λ (r : Header). r.size) same ∙ z,
  subst (λ k. Chain (unlink m b.place) a.place k (d ∷ pre ++ post))
      (sym (ap (λ (r : Header). r.next) same))
      (unlink-Chain m b post a.place (m a.place).next (d ∷ pre) rest f.1 f.0),
)
  where
    same : unlink m b.place a.place ≡ m a.place
    same =
        unlink-else m b.place (last_place d.place pre) (first_place post)
          (prev-last_place m b post a.place (m a.place).next (d ∷ pre) rest)
          (next-first_place m b post a.place (m a.place).next (d ∷ pre) rest) a.place
          (Fresh-last_place a.place d pre (b ∷ post) f.0)
          (Fresh-first_place a.place post a0 (Fresh-right a.place (d ∷ pre) (b ∷ post) f.0).1)
