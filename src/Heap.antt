-- ===== src/Heap.antt =====
-- heap.c, without HEAP_CHECK and HEAP_TEST. An address is a number of bytes, 0 is NULL, and a header
-- takes 12 bytes, as on a 32-bit target. The memory is what the headers hold; Heap/Blocks shows that
-- no two of them overlap. Sizes count headers.
pub mod Memory
pub mod Blocks
pub mod Chains
pub mod Unlink
pub mod Link
pub mod FirstFit
pub mod Invariant
pub mod Alloc
pub mod Serve
pub mod Spaces
pub mod Start
pub mod Free
pub mod Join
pub mod Merge
pub mod Insert
pub mod Place
pub mod Around
pub mod Taken
pub mod Release
mod Tests
use common_lib.Prelude.{
  ℕ, zero, suc, ◌+◌, ◌-◌, ◌*◌, ◌/◌, ◌==◌, leb, ltb, if◌then◌else◌, Bool, true, false, not, ◌&&◌,
  ◌||◌, Option, none, some, List, [], ◌∷◌, add32, sub32, mul32,
}
use common_lib.Heap.Memory.{Header, Mem, set_prev, set_next, set_size}

abbrev pub header_size : ℕ
header_size = 12

pub record HeapSpace : Type 0 where
  pub heap_base : ℕ
  pub heap_size : ℕ

-- `heap_spaces` with its `heap_space_count`, and the memory
pub record HeapInfo : Type 0 where
  pub mem : Mem
  pub heap_spaces : List HeapSpace
  pub free_blocks : ℕ
  pub used_blocks : ℕ
  pub heap_size : ℕ
  pub free_size : ℕ
  pub used_size : ℕ

-- `h + n`
abbrev pub headers_on : ℕ → ℕ → ℕ
headers_on h n = h + n * header_size

unfoldable pub heap_info_init : HeapInfo → ℕ → ℕ → HeapInfo
heap_info_init hi start stop = record hi {
  heap_spaces = record { heap_base = start; heap_size = stop - start } ∷ [];
}

-- the header of a space, behind that of the space before it, which is 0 for the first
unfoldable pub init_header : ℕ → HeapSpace → Mem → Mem
unfolding set_prev set_next set_size sub32
init_header before s m =
    let linked =
      if before == 0
      then set_prev m s.heap_base 0
      else set_next (set_prev m s.heap_base before) before s.heap_base in
    set_size (set_next linked s.heap_base 0) s.heap_base (sub32 (s.heap_size / header_size) 1)

-- a round of the loop of Heap_Init
unfoldable pub add_space : ℕ → HeapSpace → HeapInfo → HeapInfo
unfolding init_header add32 sub32
add_space before s hi = record hi {
  mem = init_header before s hi.mem;
  heap_size = add32 hi.heap_size s.heap_size;
  free_size = add32 hi.free_size (sub32 s.heap_size header_size);
}

-- the loop of Heap_Init over the spaces that are left
unfoldable pub init_spaces : ℕ → List HeapSpace → HeapInfo → ℕ × HeapInfo
unfolding add_space
init_spaces before [] hi = (0, hi)
init_spaces before (s ∷ spaces) hi =
    let rest = init_spaces s.heap_base spaces (add_space before s hi) in
    if s.heap_base == 0 || s.heap_size == 0 then (3, hi) else rest

unfoldable pub init_first : HeapInfo → List HeapSpace → ℕ × HeapInfo
unfolding init_spaces
init_first hi [] = (2, hi)
init_first hi (s ∷ spaces) =
    let started = record hi {
      free_blocks = s.heap_base;
      used_blocks = 0;
      used_size = 0;
      heap_size = 0;
      free_size = 0;
    } in
    if s.heap_base == 0 then (2, hi) else init_spaces 0 (s ∷ spaces) started

-- `Heap_Init`, for a `hi` and spaces other than NULL
unfoldable pub heap_init : HeapInfo → ℕ × HeapInfo
unfolding init_first
heap_init hi = init_first hi hi.heap_spaces

-- The block that the loop of Heap_Alloc stops at, 0 at the end of the list; `none` is the fuel used up.
unfoldable pub find_fit : ℕ → Mem → ℕ → ℕ → Option ℕ
find_fit zero m size h = none
find_fit (suc fuel) m size h =
    let rest = find_fit fuel m size (m h).next in
    if h == 0 then some 0 else if leb size (m h).size then some h else rest

-- `h` out of the list that it is in: the memory, and the head of the list
unfoldable pub unlink : Mem → ℕ → Mem
unfolding set_prev set_next
unlink m h =
    let after = if (m h).next == 0 then m else set_prev m (m h).next (m h).prev in
    if (m h).prev == 0 then after else set_next after (m h).prev (after h).next

abbrev pub head_after : Mem → ℕ → ℕ → ℕ
head_after m h head = if (m h).prev == 0 then (m h).next else head

-- a block in front of the used ones, the first of which is at `used`
unfoldable pub link_mem : Mem → ℕ → ℕ → Mem
unfolding set_prev set_next
link_mem m h used =
    let after = if used == 0 then m else set_prev m used h in set_next (set_prev after h 0) h used

unfoldable pub link_used : ℕ → HeapInfo → HeapInfo
unfolding link_mem
link_used h hi = record hi { mem = link_mem hi.mem h hi.used_blocks; used_blocks = h }

-- the whole of a free block
unfoldable pub take_whole : ℕ → HeapInfo → HeapInfo
unfolding unlink link_used add32 sub32 mul32
take_whole h hi =
    let bytes = mul32 (hi.mem h).size header_size in
    let taken = record hi {
      mem = unlink hi.mem h;
      free_blocks = head_after hi.mem h hi.free_blocks;
      free_size = sub32 hi.free_size bytes;
    } in
    let linked = link_used h taken in record linked { used_size = add32 linked.used_size bytes }

-- the end of a free block, for a used one of `size` headers
unfoldable pub split_off : ℕ → ℕ → HeapInfo → HeapInfo
unfolding link_used set_size add32 sub32 mul32
split_off size h hi =
    let left = (hi.mem h).size - (size + 1) in
    let h1 = headers_on h (left + 1) in
    let bytes = mul32 size header_size in
    let taken = record hi {
      mem = set_size (set_size hi.mem h left) h1 size;
      free_size = sub32 hi.free_size (add32 bytes header_size);
    } in
    let linked = link_used h1 taken in record linked { used_size = add32 linked.used_size bytes }

-- what Heap_Alloc does with the block that was found
unfoldable pub use_block : ℕ → HeapInfo → Option ℕ → Option (ℕ × HeapInfo)
unfolding take_whole split_off
use_block size hi none = none
use_block size hi (some h) =
    let whole = take_whole h hi in
    let part = split_off size h hi in
    if h == 0
    then some (0, hi)
    else if leb ((hi.mem h).size - size) 1
    then some (whole.used_blocks + header_size, whole)
    else some (part.used_blocks + header_size, part)

-- the address for a request of no bytes
abbrev pub no_bytes : ℕ
no_bytes = 0xfffffff0

-- `Heap_Alloc`, with fuel for its loop
unfoldable pub heap_alloc : ℕ → HeapInfo → ℕ → Option (ℕ × HeapInfo)
unfolding find_fit use_block
heap_alloc fuel hi size =
    let headers = size / header_size + 1 in
    if size == 0
    then some (no_bytes, hi)
    else use_block headers hi (find_fit fuel hi.mem headers hi.free_blocks)

unfoldable pub heap_get_size : HeapInfo → ℕ → ℕ
unfolding mul32
heap_get_size hi p = mul32 (hi.mem (p - header_size)).size header_size
