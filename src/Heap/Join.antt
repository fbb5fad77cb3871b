-- ===== src/Heap/Join.antt =====
-- Two free blocks that touch, and the one that takes their place.
use mathlib.Core.Path.{subst}
use common_lib.Prelude.{
  ℕ, ◌+◌, ◌≤◌, ◌≡◌, ◌≢◌, ◌==◌, inl, inr, refl, ap, ◌∙◌, sym, arith, List, [], ◌∷◌, ◌++◌,
  if◌then◌else◌, append_assoc, add32,
}
use common_lib.Heap.Memory.{Header, Mem, set_prev, set_next, set_size}
use common_lib.Heap.Blocks.{
  Block, Fresh, AllApart, ApartFrom, Apart, block_end, ApartFrom-middle, AllApart-remove,
  AllApart-insert, ApartFrom-append, ApartFrom-left, ApartFrom-right,
}
use common_lib.Heap.Chains.{
  Chain, Same, Chain-Same, AllFresh, AllFresh-of_AllApart, last_place, prev-last_place,
  next-first_place, size-units,
}
use common_lib.Heap.Link.{set_size-Chain, set_size-Same, set_size-else}
use common_lib.Heap.Invariant.{IsHeap, AllFresh-left, AllFresh-right, Fresh-right}
use common_lib.Heap.Alloc.{unlinked_free, unlinked_used, place_ne-zero, others_apart}
use common_lib.Heap.Free.{join_next}
use common_lib.Heap.{HeapInfo, unlink, head_after}

-- two blocks that touch, as one
abbrev pub both : Block → Block → Block
both x y = record { place = x.place; units = x.units + (y.units + 1) }

Same-of_equal : (m m' : Mem) (bs : List Block) → ((c : ℕ) → m' c ≡ m c) → Same m m' bs
Same-of_equal m m' [] e = tt
Same-of_equal m m' (b ∷ bs) e = (e b.place, Same-of_equal m m' bs e)

module _ (m : Mem) (x y n u : ℕ) where
  join_mem : Mem
  join_mem =
      if n == 0 then set_next (set_size m x u) x 0 else set_next (set_prev (set_size m x u) n x) x n

  join_mem-unlink :
      (m x).next ≡ y
      → (m y).prev ≡ x
      → (m y).next ≡ n
      → x ≢ 0
      → y ≢ x
      → (c : ℕ) → join_mem c ≡ set_size (unlink m y) x u c
  unfolding join_mem unlink set_prev set_next set_size
  join_mem-unlink h1 h2 h3 h4 h5 c = ground arith

module _ (hi : HeapInfo) (pre : List Block) (x y : Block) (rest used : List Block)
    (v : IsHeap hi (pre ++ (x ∷ y ∷ rest)) used) (touch : y.place ≡ block_end x)
    (reach : block_end y ≤ 4294967296) where
  later : IsHeap hi ((pre ++ (x ∷ [])) ++ (y ∷ rest)) used
  later = subst (λ l. IsHeap hi l used) (sym (append_assoc pre (x ∷ []) (y ∷ rest))) v

  places_differ : y.place ≢ x.place
  places_differ = omega (arith, touch)

  x_ne-zero : x.place ≢ 0
  x_ne-zero = place_ne-zero hi pre x (y ∷ rest) used v pre 0 hi.free_blocks v.free_chain

  prev_is : (hi.mem y.place).prev ≡ x.place
  prev_is =
      prev-last_place hi.mem y rest 0 hi.free_blocks (pre ++ (x ∷ [])) later.free_chain ∙ ends pre 0
    where
      ends : (p : List Block) (k : ℕ) → last_place k (p ++ (x ∷ [])) ≡ x.place
      ends [] k = refl
      ends (a ∷ p) k = ends p a.place

  pub next_is : (hi.mem x.place).next ≡ y.place
  next_is = next-first_place hi.mem x (y ∷ rest) 0 hi.free_blocks pre v.free_chain

  x_size : (hi.mem x.place).size ≡ x.units
  x_size = size-units hi.mem x (y ∷ rest) 0 hi.free_blocks pre v.free_chain

  y_size : (hi.mem y.place).size ≡ y.units
  y_size = size-units hi.mem y rest 0 hi.free_blocks (pre ++ (x ∷ [])) later.free_chain

  sum_is : add32 (hi.mem x.place).size (add32 (hi.mem y.place).size 1) ≡ (both x y).units
  unfolding add32
  sum_is = omega (arith, x_size, y_size, touch)

  -- the memory as it is after taking `y` out and making `x` larger
  same :
      (c : ℕ)
      → (join_next x.place hi).mem c ≡ set_size (unlink hi.mem y.place) x.place (both x y).units c
  unfolding join_next
  same c = rw next_is (
      rw (sum_is, y_next)
        (unfold join_mem in
          join_mem-unlink hi.mem x.place y.place (hi.mem y.place).next (both x y).units next_is
            prev_is refl x_ne-zero places_differ c))
    where
      y_next : (set_size hi.mem x.place (both x y).units y.place).next ≡ (hi.mem y.place).next
      y_next =
          ap (λ (r : Header). r.next)
            (set_size-else hi.mem x.place (both x y).units y.place places_differ)

  out : Chain (unlink hi.mem y.place) 0 hi.free_blocks (pre ++ (x ∷ rest))
  out = subst (Chain (unlink hi.mem y.place) 0 hi.free_blocks) (append_assoc pre (x ∷ []) rest) (
      subst (λ h. Chain (unlink hi.mem y.place) 0 h ((pre ++ (x ∷ [])) ++ rest)) head_stays
        (unlinked_free hi (pre ++ (x ∷ [])) y rest used later))
    where
      head_stays : head_after hi.mem y.place hi.free_blocks ≡ hi.free_blocks
      head_stays = ground (arith, prev_is, x_ne-zero)

  both_apart : AllApart ((pre ++ (both x y ∷ rest)) ++ used)
  both_apart = subst AllApart (sym (append_assoc pre (both x y ∷ rest) used)) (
      AllApart-insert pre (both x y) (rest ++ used)
        (ApartFrom-both (pre ++ (rest ++ used))
          (ApartFrom-append x pre (rest ++ used) (ApartFrom-left x pre (y ∷ (rest ++ used)) x_from)
            (ApartFrom-right x pre (y ∷ (rest ++ used)) x_from).1)
          (ApartFrom-middle pre y (rest ++ used) without))
        (AllApart-remove pre y (rest ++ used) without))
    where
      rows : AllApart (pre ++ (x ∷ y ∷ (rest ++ used)))
      rows = subst AllApart (append_assoc pre (x ∷ y ∷ rest) used) v.apart

      x_from : ApartFrom x (pre ++ (y ∷ (rest ++ used)))
      x_from = ApartFrom-middle pre x (y ∷ (rest ++ used)) rows

      without : AllApart (pre ++ (y ∷ (rest ++ used)))
      without = AllApart-remove pre x (y ∷ (rest ++ used)) rows

      apart_both : (z : Block) → Apart x z → Apart y z → Apart (both x y) z
      apart_both z (inl a) (inl c) = inl (omega (arith, touch))
      apart_both z (inl a) (inr c) = absurd (omega (arith, touch))
      apart_both z (inr a) c = inr (omega (arith, touch))

      ApartFrom-both : (zs : List Block) → ApartFrom x zs → ApartFrom y zs → ApartFrom (both x y) zs
      ApartFrom-both [] a c = tt
      ApartFrom-both (z ∷ zs) a c = (apart_both z a.0 c.0, ApartFrom-both zs a.1 c.1)

  pub join_next-IsHeap : IsHeap (join_next x.place hi) (pre ++ (both x y ∷ rest)) used
  unfolding join_next
  join_next-IsHeap = record {
    free_chain =
        Chain-Same grown (join_next x.place hi).mem 0 hi.free_blocks (pre ++ (both x y ∷ rest))
          (Same-of_equal grown (join_next x.place hi).mem (pre ++ (both x y ∷ rest)) same)
          (set_size-Chain (unlink hi.mem y.place) x (both x y).units 0 hi.free_blocks pre rest out
            fresh);
    used_chain =
        Chain-Same grown (join_next x.place hi).mem 0 hi.used_blocks used
          (Same-of_equal grown (join_next x.place hi).mem used same)
          (Chain-Same (unlink hi.mem y.place) grown 0 hi.used_blocks used
            (set_size-Same (unlink hi.mem y.place) x.place (both x y).units used x_fresh)
            (unlinked_used hi (pre ++ (x ∷ [])) y rest used later));
    apart = both_apart;
  }
    where
      grown : Mem
      grown = set_size (unlink hi.mem y.place) x.place (both x y).units

      all : AllFresh (pre ++ (x ∷ (rest ++ used)))
      all = AllFresh-of_AllApart (pre ++ (x ∷ (rest ++ used))) (
          subst AllApart (append_assoc pre (x ∷ rest) used) (
            subst (λ l. AllApart (l ++ used)) (append_assoc pre (x ∷ []) rest)
              (others_apart hi (pre ++ (x ∷ [])) y rest used later)))

      fresh : AllFresh (pre ++ (x ∷ rest))
      fresh =
          AllFresh-left (pre ++ (x ∷ rest)) used
            (subst AllFresh (sym (append_assoc pre (x ∷ rest) used)) all)

      x_fresh : Fresh x.place used
      x_fresh = Fresh-right x.place rest used (AllFresh-right pre (x ∷ (rest ++ used)) all).0
