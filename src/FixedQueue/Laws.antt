-- ===== src/FixedQueue/Laws.antt =====
-- Reading and taking from the queue of fixed_queue.c.
use common_lib.Prelude.{
  ℕ, suc, ◌+◌, ◌-◌, ◌<◌, ◌≡◌, refl, ap, ◌∙◌, arith, leb, if◌then◌else◌, none, some, [], ◌∷◌,
  Bool-cases, ◌⊎◌, ◌≢◌, inl, inr, sym, get_or, get_elem?, drop, true, false,
}
use common_lib.Ring.{get_elem?-eq-get_or, next_index, collect, index_at, get_or-collect}
use common_lib.FixedQueue.{FixedQueue, peek, pop, count, peekn, back}
use common_lib.FixedQueue.Contents.{IsValid, contents, count-lt}

module _ {A : Type 0} (d : A) where
  count-cases :
      (q : FixedQueue A)
      → IsValid q
      → ((q.first ≡ q.current) × (count q ≡ 0))
        ⊎ ((q.first ≢ q.current) × (count q ≡ suc (count q - 1)))
  unfolding count
  count-cases q v = ground arith

  -- The oldest item and the others.
  contents-suc :
      (q : FixedQueue A)
      → count q ≡ suc (count q - 1)
      → contents d q
        ≡ get_or q.buffer q.first d
          ∷ collect d q.buffer q.size (next_index q.size q.first) (count q - 1)
  contents-suc q e = ap (collect d q.buffer q.size q.first) e

  contents-zero : (q : FixedQueue A) → count q ≡ 0 → contents d q ≡ []
  contents-zero q e = ap (collect d q.buffer q.size q.first) e

  pop-empty : (q : FixedQueue A) → q.first ≡ q.current → pop q ≡ q
  unfolding pop
  pop-empty q e = ground arith

  count-pop : {q : FixedQueue A} → IsValid q → q.first ≢ q.current → count (pop q) ≡ count q - 1
  unfolding pop count
  count-pop v ne = ground arith

  contents-pop_more :
      (q : FixedQueue A) (n : ℕ)
      → q.first ≢ q.current
      → collect d (pop q).buffer (pop q).size (pop q).first n
        ≡ collect d q.buffer q.size (next_index q.size q.first) n
  unfolding pop
  contents-pop_more q n ne = ground arith

  -- In a valid queue `fixed_queue_pop` forgets the oldest item, if there is one.
  contents-pop : {q : FixedQueue A} → IsValid q → contents d (pop q) ≡ drop 1 (contents d q)
  contents-pop {q} v = elim (count-cases q v) [
    | inl (same, zero_left) ↦
        ap (contents d) (pop-empty q same)
        ∙ contents-zero q zero_left
        ∙ sym (ap (drop 1) (contents-zero q zero_left))
    | inr (differ, more) ↦
        ap (collect d (pop q).buffer (pop q).size (pop q).first) (count-pop v differ)
        ∙ contents-pop_more q (count q - 1) differ
        ∙ sym (ap (drop 1) (contents-suc q more))
  ]

  peek-of_empty : (q : FixedQueue A) → q.first ≡ q.current → peek q ≡ none
  unfolding peek
  peek-of_empty q e = ground arith

  peek-of_more : (q : FixedQueue A) → q.first ≢ q.current → peek q ≡ get_elem? q.buffer q.first
  unfolding peek
  peek-of_more q e = ground arith

  -- In a valid queue `fixed_queue_peek` is the oldest item, or NULL if there is none.
  pub peek-contents : {q : FixedQueue A} → IsValid q → peek q ≡ get_elem? (contents d q) 0
  peek-contents {q} v = elim (count-cases q v) [
    | inl (same, zero_left) ↦
        peek-of_empty q same ∙ sym (ap (λ l. get_elem? l 0) (contents-zero q zero_left))
    | inr (differ, more) ↦
        peek-of_more q differ
        ∙ get_elem?-eq-get_or d q.buffer q.first (omega (arith, v.slots, v.first_in))
        ∙ sym (ap (λ l. get_elem? l 0) (contents-suc q more))
  ]

  -- The slot of the item `n` before the newest is `count - 1 - n` places on from `first`.
  back-eq :
      {q : FixedQueue A} (n : ℕ)
      → IsValid q
      → n < count q
      → back q.size q.current (n + 1) ≡ index_at q.size q.first (count q - 1 - n)
  unfolding count
  back-eq n v h = ground arith

  back-lt :
      {q : FixedQueue A} (n : ℕ) → IsValid q → n < count q → back q.size q.current (n + 1) < q.size
  unfolding count
  back-lt n v h = ground arith

  peekn-of_past : (q : FixedQueue A) (n : ℕ) → leb (count q) n ≡ true → peekn q n ≡ none
  unfolding peekn
  peekn-of_past q n e = ground arith

  peekn-of_within :
      (q : FixedQueue A) (n : ℕ)
      → leb (count q) n ≡ false
      → peekn q n ≡ get_elem? q.buffer (back q.size q.current (n + 1))
  unfolding peekn
  peekn-of_within q n e = ground arith

  -- In a valid queue `fixed_queue_peekn` counts from the newest item, and is NULL past the oldest.
  peekn-contents :
      {q : FixedQueue A} (n : ℕ)
      → IsValid q
      → peekn q n
        ≡ (if leb (count q) n then none else some (get_or (contents d q) (count q - 1 - n) d))
  peekn-contents {q} n v = elim (Bool-cases (leb (count q) n)) [
    | inl past ↦ peekn-of_past q n past ∙ sym (rw past refl)
    | inr within ↦
        let h : n < count q = ground arith in
        peekn-of_within q n within
        ∙ get_elem?-eq-get_or d q.buffer (back q.size q.current (n + 1))
            (omega (arith, back-lt n v h, v.slots))
        ∙ ap some (
            ap (λ i. get_or q.buffer i d) (back-eq n v h)
            ∙ sym (
                get_or-collect d q.buffer q.size q.first (count q) (count q - 1 - n) v.first_in
                  (omega (arith, count-lt d v)) (omega arith)))
        ∙ sym (rw within refl)
  ]
