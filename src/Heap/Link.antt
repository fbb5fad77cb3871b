-- ===== src/Heap/Link.antt =====
-- A block in front of a list, and a block that changes its size.
use mathlib.Core.Path.{subst}
use common_lib.Prelude.{ℕ, ◌≡◌, ◌≢◌, refl, ap, ◌∙◌, sym, arith, List, [], ◌∷◌, ◌++◌}
use common_lib.Heap.Memory.{Header, Mem, set_size}
use common_lib.Heap.Blocks.{Block, Fresh}
use common_lib.Heap.Chains.{Chain, Same, Chain-tail, Same-of_two, AllFresh}
use common_lib.Heap.{link_mem}

module _ (m : Mem) (h used : ℕ) where
  pub link_mem-else : (c : ℕ) → c ≢ h → c ≢ used → link_mem m h used c ≡ m c
  unfolding link_mem
  link_mem-else c hh hu = ground arith

  link_mem-head :
      h ≢ used → link_mem m h used h ≡ record { prev = 0; next = used; size = (m h).size }
  unfolding link_mem
  link_mem-head hu = ground arith

  link_mem-used : used ≢ 0 → used ≢ h → link_mem m h used used ≡ record (m used) { prev = h }
  unfolding link_mem
  link_mem-used u0 uh = ground arith

link_rest :
    (m : Mem) (b : Block) (used : ℕ) (bs : List Block)
    → Chain m 0 used bs
    → b.place ≢ 0
    → Fresh b.place bs
    → AllFresh bs
    → Chain (link_mem m b.place used) b.place used bs
link_rest m b used [] c b0 f g = c
link_rest m b used (d ∷ bs) (e, d0, p, z, rest) b0 f g = (
  e,
  d0,
  ap (λ (r : Header). r.prev) moved,
  ap (λ (r : Header). r.size) moved ∙ z,
  Chain-tail m (link_mem m b.place used) d.place bs (ap (λ (r : Header). r.next) moved)
      (Same-of_two m (link_mem m b.place used) b.place d.place bs
        (λ c cb cd. link_mem-else m b.place used c cb (λ k. cd (k ∙ e))) f.1 g.0)
      rest,
)
  where
    moved : link_mem m b.place used d.place ≡ record (m d.place) { prev = b.place }
    moved =
        subst (λ u. link_mem m b.place u d.place ≡ record (m d.place) { prev = b.place }) (sym e)
          (link_mem-used m b.place d.place d0 (λ k. f.0 (sym k)))

-- A block joins a list of which it is no part.
pub link_mem-Chain :
    (m : Mem) (b : Block) (used : ℕ) (bs : List Block)
    → Chain m 0 used bs
    → (m b.place).size ≡ b.units
    → b.place ≢ 0
    → Fresh b.place bs
    → AllFresh bs
    → Chain (link_mem m b.place used) 0 b.place (b ∷ bs)
link_mem-Chain m b used bs c z b0 f g = (
  refl,
  b0,
  ap (λ (r : Header). r.prev) headed,
  ap (λ (r : Header). r.size) headed ∙ z,
  subst (λ k. Chain (link_mem m b.place used) b.place k bs)
      (sym (ap (λ (r : Header). r.next) headed)) (link_rest m b used bs c b0 f g),
)
  where
    apart : (cs : List Block) → Chain m 0 used cs → Fresh b.place cs → b.place ≢ used
    apart [] e fresh = λ k. b0 (k ∙ e)
    apart (d ∷ cs) e fresh = λ k. fresh.0 (k ∙ e.0)

    headed :
        link_mem m b.place used b.place ≡ record { prev = 0; next = used; size = (m b.place).size }
    headed = link_mem-head m b.place used (apart bs c f)

pub set_size-else : (m : Mem) (a u c : ℕ) → c ≢ a → set_size m a u c ≡ m c
unfolding set_size
set_size-else m a u c h = ground arith

pub set_size-at : (m : Mem) (a u : ℕ) → set_size m a u a ≡ record (m a) { size = u }
unfolding set_size
set_size-at m a u = ground arith

pub set_size-Same : (m : Mem) (a u : ℕ) (bs : List Block) → Fresh a bs → Same m (set_size m a u) bs
set_size-Same m a u [] f = tt
set_size-Same m a u (b ∷ bs) f =
    (set_size-else m a u b.place (λ k. f.0 (sym k)), set_size-Same m a u bs f.1)

pub set_size-Chain :
    (m : Mem) (b : Block) (u before head : ℕ) (pre post : List Block)
    → Chain m before head (pre ++ (b ∷ post))
    → AllFresh (pre ++ (b ∷ post))
    → Chain
        (set_size m b.place u)
        before
        head
        (pre ++ (record { place = b.place; units = u } ∷ post))
set_size-Chain m b u before head [] post (h, b0, p, z, rest) f = (
  h,
  b0,
  ap (λ (r : Header). r.prev) (set_size-at m b.place u) ∙ p,
  ap (λ (r : Header). r.size) (set_size-at m b.place u),
  Chain-tail m (set_size m b.place u) b.place post
      (ap (λ (r : Header). r.next) (set_size-at m b.place u)) (set_size-Same m b.place u post f.0)
      rest,
)
set_size-Chain m b u before head (a ∷ pre) post (h, a0, p, z, rest) f = (
  h,
  a0,
  ap (λ (r : Header). r.prev) kept ∙ p,
  ap (λ (r : Header). r.size) kept ∙ z,
  subst
      (λ k.
        Chain (set_size m b.place u) a.place k
          (pre ++ (record { place = b.place; units = u } ∷ post)))
      (sym (ap (λ (r : Header). r.next) kept))
      (set_size-Chain m b u a.place (m a.place).next pre post rest f.1),
)
  where
    differs : (xs : List Block) → Fresh a.place (xs ++ (b ∷ post)) → a.place ≢ b.place
    differs [] g = g.0
    differs (x ∷ xs) g = differs xs g.1

    kept : set_size m b.place u a.place ≡ m a.place
    kept = set_size-else m b.place u a.place (differs pre f.0)
