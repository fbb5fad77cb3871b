-- ===== src/FixedQueue.antt =====
-- fixed_queue.c: a history of fixed-size items that forgets the oldest. A slot
-- `buffer[i * item_length .. (i + 1) * item_length)` is one item here, `buffer` is the list of the
-- slots, and a pointer into it is the slot's index.
pub mod Contents
pub mod Laws
pub mod Search
mod Tests
use common_lib.Prelude.{
  ℕ, zero, suc, ◌+◌, ◌-◌, ◌==◌, leb, ltb, if◌then◌else◌, Bool, true, false, ◌||◌, Option, none,
  some, List, get_elem?, set,
}
use common_lib.Ring.{next_index, distance}

pub record FixedQueue (A : Type 0) : Type 0 where
  pub size : ℕ
  pub buffer : List A
  pub current : ℕ
  pub first : ℕ

-- `i - 1`, or the last index when that is negative
abbrev pub prev_index : ℕ → ℕ → ℕ
prev_index size i = if i == 0 then size - 1 else i - 1

-- `i - k; if (i < 0) i += size`
abbrev pub back : ℕ → ℕ → ℕ → ℕ
back size i k = if leb k i then i - k else i + size - k

module _ {A : Type 0} where
  unfoldable pub init : ℕ → List A → FixedQueue A
  init size buffer = record { size = size; buffer = buffer; current = 0; first = 0 }

  unfoldable pub reset : FixedQueue A → FixedQueue A
  reset q = record q { current = 0; first = 0 }

  -- the oldest item; a pointer out of the buffer reads as NULL, which `Laws` rules out
  unfoldable pub peek : FixedQueue A → Option A
  peek q = if q.current == q.first then none else get_elem? q.buffer q.first

  unfoldable pub pop : FixedQueue A → FixedQueue A
  pop q = if q.first == q.current then q else record q { first = next_index q.size q.first }

  -- `fixed_queue_move_next`: the second `if` sees the new `current`.
  unfoldable pub advance : ℕ → FixedQueue A → FixedQueue A
  advance current q =
      if current == q.first
      then record q { current = current; first = next_index q.size q.first }
      else record q { current = current }

  unfoldable pub move_next : FixedQueue A → FixedQueue A
  unfolding advance
  move_next q = advance (next_index q.size q.current) q

  unfoldable pub push : FixedQueue A → A → FixedQueue A
  unfolding move_next
  push q item = move_next (record q { buffer = set q.buffer q.current item })

  unfoldable pub count : FixedQueue A → ℕ
  count q = distance q.size q.first q.current

  -- `fixed_queue_peekn` at an offset of at least 0: the newest item is at 0. `offset > size - 1`
  -- is `size <= offset`, also at size 0.
  unfoldable pub peekn : FixedQueue A → ℕ → Option A
  unfolding count
  peekn q offset =
      if leb (count q) offset then none else get_elem? q.buffer (back q.size q.current (offset + 1))

  -- the loop of `fixed_queue_get_index`, with the rounds left: from the newest item back
  unfoldable pub find_from : (A → Bool) → FixedQueue A → ℕ → ℕ → ℕ → Option ℕ
  find_from equal q zero slot idx = none
  find_from equal q (suc left) slot idx = elim (get_elem? q.buffer slot) [
    | none ↦ none
    | some item ↦
        let rest = find_from equal q left (prev_index q.size slot) (idx + 1) in
        if equal item then some idx else rest
  ]

  -- `cmp(p, data)` is 0 for the item that is looked for.
  unfoldable pub get_index : FixedQueue A → (A → Bool) → Option ℕ
  unfolding count find_from
  get_index q equal = find_from equal q (count q) (prev_index q.size q.current) 0

  -- the loop of `fixed_queue_move_to_top` with fuel: the items between `idx` and `top` move back by
  -- one slot; `none` is an access out of the buffer, or the fuel used up
  unfoldable pub shift_down : ℕ → ℕ → ℕ → List A → ℕ → Option (List A)
  shift_down zero size top buffer idx = none
  shift_down (suc fuel) size top buffer idx =
      let next_idx = next_index size idx in
      let rest : Option (List A) = elim (get_elem? buffer next_idx) [
        | none ↦ none
        | some item ↦ shift_down fuel size top (set buffer idx item) next_idx
      ] in
      if idx == top then some buffer else rest

  -- the saved item put on top once the others have moved
  unfoldable pub put_on_top : ℕ → A → FixedQueue A → Option (List A) → Option (FixedQueue A)
  put_on_top top item q none = none
  put_on_top top item q (some buffer) = some (record q { buffer = set buffer top item })

  unfoldable pub move_item : ℕ → ℕ → FixedQueue A → Option A → Option (FixedQueue A)
  unfolding shift_down put_on_top
  move_item top idx q none = none
  move_item top idx q (some item) =
      put_on_top top item q (shift_down (suc q.size) q.size top q.buffer idx)

  -- `fixed_queue_move_to_top` at an offset of at least 0; its `buffer` is room for one item.
  unfoldable pub move_to_top : FixedQueue A → ℕ → Option (FixedQueue A)
  unfolding count move_item
  move_to_top q offset =
      let top = prev_index q.size q.current in
      let idx = back q.size top offset in
      if offset == 0 || leb (count q) offset
      then some q
      else move_item top idx q (get_elem? q.buffer idx)
