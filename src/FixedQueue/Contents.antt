-- ===== src/FixedQueue/Contents.antt =====
-- The queue of fixed_queue.c as the list of its items, the oldest first, and the writes to it.
use common_lib.Prelude.{
  ℕ, suc, ◌+◌, ◌-◌, ◌≤◌, ◌<◌, ◌≡◌, ◌==◌, refl, ap, ◌∙◌, arith, List, [], ◌∷◌, ◌++◌, length,
  length-append, length-set, set, drop, true, false,
}
use native.Mathlib.Decide.{dec_lt}
use common_lib.Ring.{next_index, distance, collect, collect-set, length-collect}
use common_lib.FixedQueue.{FixedQueue, pop, push, count}

-- The slots are there, and both indices are in range.
pub record IsValid {A : Type 0} (q : FixedQueue A) : Type 0 where
  pub slots : q.size ≤ length q.buffer
  pub first_in : q.first < q.size
  pub current_in : q.current < q.size

-- the last `n` of a list
abbrev pub keep_last : {A : Type 0} → ℕ → List A → List A
keep_last n xs = drop (length xs - n) xs

module _ {A : Type 0} (d : A) where
  -- `d` is what a read out of the buffer gives, which a valid queue makes none of.
  abbrev pub contents : FixedQueue A → List A
  contents q = collect d q.buffer q.size q.first (count q)

  pub length-contents : (q : FixedQueue A) → length (contents q) ≡ count q
  length-contents q = length-collect d q.buffer q.size q.first (count q)

  pub push-IsValid : {q : FixedQueue A} (x : A) → IsValid q → IsValid (push q x)
  unfolding push
  push-IsValid {q} x v = ground (arith, length-set q.buffer q.current x)

  pub pop-IsValid : {q : FixedQueue A} → IsValid q → IsValid (pop q)
  unfolding pop
  pop-IsValid v = ground arith

  -- the buffer after a push, seen from `first` on
  written : FixedQueue A → A → ℕ → ℕ → List A
  written q x h n = collect d (set q.buffer q.current x) q.size h n

  written-suc :
      {q : FixedQueue A} (x : A)
      → IsValid q
      → written q x q.first (suc (count q)) ≡ contents q ++ (x ∷ [])
  unfolding written
  written-suc {q} x v =
      collect-set d q.buffer q.size q.first (count q) q.current x v.slots v.first_in
        (unfold count in ground arith) (unfold count in ground arith)

  written-next :
      (x : A) (q : FixedQueue A)
      → written q x (next_index q.size q.first) (count q)
        ≡ drop 1 (written q x q.first (suc (count q)))
  unfolding written
  written-next x q = refl

  contents-push_full :
      {q : FixedQueue A} (x : A)
      → IsValid q
      → 1 < q.size
      → count q + 1 ≡ q.size
      → contents (push q x) ≡ written q x (next_index q.size q.first) (count q)
  unfolding push written count
  contents-push_full {q} x v big full =
      let meets : (next_index q.size q.current == q.first) ≡ true = ground arith in
      let same : distance q.size (next_index q.size q.first) (next_index q.size q.current)
          ≡ distance q.size q.first q.current =
        ground arith in
      rw (meets, same)

  contents-push_room :
      {q : FixedQueue A} (x : A)
      → IsValid q
      → count q + 1 < q.size
      → contents (push q x) ≡ written q x q.first (suc (count q))
  unfolding push written count
  contents-push_room {q} x v room =
      let apart : (next_index q.size q.current == q.first) ≡ false = ground arith in
      let more : distance q.size q.first (next_index q.size q.current)
          ≡ suc (distance q.size q.first q.current) =
        ground arith in
      rw (apart, more)

  pub count-lt : {q : FixedQueue A} → IsValid q → count q < q.size
  unfolding count
  count-lt v = ground arith

  length-pushed : (q : FixedQueue A) (x : A) → length (contents q ++ (x ∷ [])) ≡ count q + 1
  length-pushed q x = omega (arith, length-append (contents q) (x ∷ []), length-contents q)

  -- In a valid queue `fixed_queue_push` puts the item behind the others and keeps the last `size - 1` of them, for a
  -- `size` of at least 2.
  pub contents-push :
      {q : FixedQueue A} (x : A)
      → IsValid q
      → 1 < q.size
      → contents (push q x) ≡ keep_last (q.size - 1) (contents q ++ (x ∷ []))
  contents-push {q} x v big = elim (dec_lt (count q + 1) q.size) [
    | yes room ↦
        let none_lost : 0 ≡ length (contents q ++ (x ∷ [])) - (q.size - 1) =
          omega (arith, length-pushed q x) in
        contents-push_room x v room
        ∙ written-suc x v
        ∙ ap (λ k. drop k (contents q ++ (x ∷ []))) none_lost
    | no full ↦
        let one_lost : 1 ≡ length (contents q ++ (x ∷ [])) - (q.size - 1) =
          omega (arith, length-pushed q x, count-lt v) in
        contents-push_full x v big (omega (arith, count-lt v))
        ∙ written-next x q
        ∙ ap (drop 1) (written-suc x v)
        ∙ ap (λ k. drop k (contents q ++ (x ∷ []))) one_lost
  ]
