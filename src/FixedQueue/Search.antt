-- ===== src/FixedQueue/Search.antt =====
-- `fixed_queue_get_index` as a search of the list of the items from the newest back.
use common_lib.Prelude.{
  ℕ, zero, suc, ◌+◌, ◌<◌, ◌≡◌, refl, ap, ◌∙◌, sym, arith, if◌then◌else◌, Bool, Option, none, some,
  List, [], ◌∷◌, length, get_or, reverse, reverse-append,
}
use common_lib.Ring.{collect, index_at, collect-suc, get_elem?-eq-get_or}
use common_lib.FixedQueue.{FixedQueue, count, find_from, get_index, prev_index}
use common_lib.FixedQueue.Contents.{IsValid, contents, count-lt}

module _ {A : Type 0} (equal : A → Bool) where
  -- the number of items before the first that is `equal`, counted from `idx`
  abbrev pub position : List A → ℕ → Option ℕ
  position [] idx = none
  position (x ∷ xs) idx = if equal x then some idx else position xs (idx + 1)

module _ {A : Type 0} (d : A) (equal : A → Bool) where
  slot_prev :
      (size h n : ℕ)
      → h < size
      → suc n < size
      → prev_index size (index_at size h (suc n)) ≡ index_at size h n
  slot_prev size h n hh hn = ground arith

  find_from-suc :
      (q : FixedQueue A) (left slot idx : ℕ)
      → slot < length q.buffer
      → find_from equal q (suc left) slot idx ≡ (
          if equal (get_or q.buffer slot d)
          then some idx
          else find_from equal q left (prev_index q.size slot) (idx + 1))
  unfolding find_from
  find_from-suc q left slot idx h = rw (get_elem?-eq-get_or d q.buffer slot h, find_from)

  reversed-suc :
      (q : FixedQueue A) (n : ℕ)
      → q.first < q.size
      → n < q.size
      → reverse (collect d q.buffer q.size q.first (suc n))
        ≡ get_or q.buffer (index_at q.size q.first n) d
          ∷ reverse (collect d q.buffer q.size q.first n)
  reversed-suc q n hf hn =
      ap reverse (collect-suc d q.buffer q.size q.first n hf hn)
      ∙ reverse-append (collect d q.buffer q.size q.first n)
          (get_or q.buffer (index_at q.size q.first n) d ∷ [])

  find_from-position :
      {q : FixedQueue A} (n idx : ℕ)
      → IsValid q
      → n < q.size
      → find_from equal q n (prev_index q.size (index_at q.size q.first n)) idx
        ≡ position equal (reverse (collect d q.buffer q.size q.first n)) idx
  find_from-position {q} zero idx v h = unfold find_from in refl
  find_from-position {q} (suc n) idx v h =
      let slot : prev_index q.size (index_at q.size q.first (suc n)) ≡ index_at q.size q.first n =
        slot_prev q.size q.first n v.first_in (omega arith) in
      let inside : index_at q.size q.first n < length q.buffer =
        ground (arith, v.slots, v.first_in) in
      ap (λ s. find_from equal q (suc n) s idx) slot
      ∙ find_from-suc q n (index_at q.size q.first n) idx inside
      ∙ ap (λ r. if equal (get_or q.buffer (index_at q.size q.first n) d) then some idx else r)
          (find_from-position n (idx + 1) v (omega arith))
      ∙ sym (ap (λ l. position equal l idx) (reversed-suc q n v.first_in (omega arith)))

  last_slot : {q : FixedQueue A} → IsValid q → q.current ≡ index_at q.size q.first (count q)
  unfolding count
  last_slot v = ground arith

  -- In a valid queue `fixed_queue_get_index` is the place of the newest item that is equal to the one looked for,
  -- counted from the newest, as the offsets of `fixed_queue_peekn` are, and -1 if there is none.
  pub get_index-contents :
      {q : FixedQueue A} → IsValid q → get_index q equal ≡ position equal (reverse (contents d q)) 0
  unfolding get_index
  get_index-contents {q} v =
      ap (λ s. find_from equal q (count q) (prev_index q.size s) 0) (last_slot v)
      ∙ find_from-position (count q) 0 v (count-lt d v)
