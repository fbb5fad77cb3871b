-- ===== src/Heap/Free.antt =====
-- Heap_Free, with what it calls.
use common_lib.Prelude.{
  ℕ, zero, suc, ◌+◌, ◌-◌, ◌==◌, leb, ltb, if◌then◌else◌, Bool, true, false, not, ◌&&◌, ◌||◌, Option,
  none, some, List, [], ◌∷◌, add32, mul32,
}
use common_lib.Heap.Memory.{Mem, set_prev, set_next, set_size}
use common_lib.Heap.{header_size, headers_on, HeapSpace, HeapInfo, unlink, head_after}

-- `Heap_AddressWithinHeap`
unfoldable pub address_within_heap : List HeapSpace → ℕ → Bool
address_within_heap [] a = false
address_within_heap (s ∷ spaces) a =
    (leb s.heap_base a && leb a (s.heap_base + s.heap_size - header_size))
    || address_within_heap spaces a

-- what joining a block to the next one writes
unfoldable pub join_next : ℕ → HeapInfo → HeapInfo
unfolding set_prev set_next set_size add32
join_next h hi =
    let next = (hi.mem h).next in
    let grown = set_size hi.mem h (add32 (hi.mem h).size (add32 (hi.mem next).size 1)) in
    let after = (grown next).next in
    let linked =
      if after == 0 then set_next grown h 0 else set_next (set_prev grown after h) h after in
    record hi { mem = linked; free_size = add32 hi.free_size header_size }

abbrev pub joined : Option (Bool × HeapInfo) → Option (Bool × HeapInfo)
joined none = none
joined (some (_, hi)) = some (true, hi)

-- `Heap_Merge`, with fuel for its recursion
unfoldable pub heap_merge : ℕ → ℕ → HeapInfo → Option (Bool × HeapInfo)
unfolding join_next
heap_merge zero h hi = none
heap_merge (suc fuel) h hi =
    let next = (hi.mem h).next in
    let rest = heap_merge fuel h (join_next h hi) in
    if not (next == 0) && next == headers_on h ((hi.mem h).size + 1)
    then if (hi.mem next).next == 0 then some (true, join_next h hi) else joined rest
    else some (false, hi)

-- The block that the loop of Heap_Free stops at.
unfoldable pub find_place : ℕ → Mem → ℕ → ℕ → Option ℕ
find_place zero m h at = none
find_place (suc fuel) m h at =
    let rest = find_place fuel m h (m at).next in
    if ltb at h && not ((m at).next == 0) then rest else some at

unfoldable pub insert_before : ℕ → ℕ → HeapInfo → HeapInfo
unfolding set_prev set_next
insert_before h at hi =
    let mine = set_next hi.mem h at in
    let both = set_prev mine h (mine at).prev in
    let first = (both at).prev == 0 in
    let linked = if first then both else set_next both (both at).prev h in
    record hi { mem = set_prev linked at h; free_blocks = if first then h else hi.free_blocks }

unfoldable pub insert_after : ℕ → ℕ → HeapInfo → HeapInfo
unfolding set_prev set_next
insert_after h at hi =
    let both = set_prev (set_next hi.mem h (hi.mem at).next) h at in
    let linked = if (both at).next == 0 then both else set_prev both (both at).next h in
    record hi { mem = set_next linked at h }

abbrev state_of : Option (Bool × HeapInfo) → Option HeapInfo
state_of none = none
state_of (some (_, hi)) = some hi

abbrev pub merge_unless : ℕ → ℕ → Option (Bool × HeapInfo) → Option HeapInfo
merge_unless fuel h none = none
merge_unless fuel h (some (true, hi)) = some hi
merge_unless fuel h (some (false, hi)) = state_of (heap_merge fuel h hi)

-- what Heap_Free does last: Heap_Merge on the block before, and on the block itself if that one did
-- not grow
unfoldable pub merge_around : ℕ → ℕ → HeapInfo → Option HeapInfo
unfolding heap_merge
merge_around fuel h hi =
    if (hi.mem h).prev == 0
    then state_of (heap_merge fuel h hi)
    else merge_unless fuel h (heap_merge fuel (hi.mem h).prev hi)

unfoldable pub insert_free : ℕ → ℕ → HeapInfo → Option ℕ → Option HeapInfo
unfolding insert_before insert_after merge_around
insert_free fuel h hi none = none
insert_free fuel h hi (some at) =
    merge_around fuel h (if leb h at then insert_before h at hi else insert_after h at hi)

unfoldable pub only_free : ℕ → HeapInfo → HeapInfo
unfolding set_prev set_next
only_free h hi = record hi { mem = set_prev (set_next hi.mem h 0) h 0; free_blocks = h }

unfoldable pub take_used : ℕ → HeapInfo → HeapInfo
unfolding unlink add32 mul32
take_used h hi = record hi {
  mem = unlink hi.mem h;
  used_blocks = head_after hi.mem h hi.used_blocks;
  free_size = add32 hi.free_size (mul32 (hi.mem h).size header_size);
}

-- `Heap_Free`, with fuel for its loop and for Heap_Merge
unfoldable pub heap_free : ℕ → HeapInfo → ℕ → Option HeapInfo
unfolding address_within_heap take_used find_place insert_free only_free
heap_free fuel hi p =
    let h = p - header_size in
    let taken = take_used h hi in
    if not (address_within_heap hi.heap_spaces h)
    then some hi
    else if taken.free_blocks == 0
    then some (only_free h taken)
    else insert_free fuel h taken (find_place fuel taken.mem h taken.free_blocks)
