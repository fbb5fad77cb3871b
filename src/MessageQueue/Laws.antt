-- ===== src/MessageQueue/Laws.antt =====
-- The queue of queue.c as a first-in first-out list of message sizes.
use common_lib.Prelude.{
  ℕ, suc, ◌+◌, ◌*◌, ◌≤◌, ◌<◌, ◌≡◌, ◌≢◌, refl, ap, ◌∙◌, ◌⊎◌, inl, inr, Bool-cases, ltb, sym, ==_iff,
  false, ◌==◌, arith, none, some, List, [], ◌∷◌, ◌++◌, length, length-set, get_or, mul32, word_mod,
}
use mathlib.Core.Path.{subst}
use common_lib.Ring.{next_index, distance, collect, collect-set, index_at}
use common_lib.MessageQueue.{Queue, queue_init, queue_poll, queue_peek_tx, queue_add}

pub record IsValid (q : Queue) : Type 0 where
  pub sizes : q.size ≤ length q.message_size_array
  pub rx_in : q.rx_head < q.size
  pub tx_in : q.tx_head < q.size
  pub small : q.size * q.buffer_size < word_mod

slot_le : (i n b : ℕ) → i < n → i * b + b ≤ n * b
slot_le i n b h = grind arith

-- the number of messages that were added and not yet taken
abbrev pub count : Queue → ℕ
count q = distance q.size q.rx_head q.tx_head

-- their sizes, the oldest first
abbrev pub pending : Queue → List ℕ
pending q = collect 0 q.message_size_array q.size q.rx_head (count q)

-- `queue_init` gives a valid empty queue, for a `size` of at least 1, an array of at least as many
-- sizes, and a buffer of fewer than 2 ^ 32 bytes.
pub queue_init-IsValid :
    (size buffer_size : ℕ) (sizes : List ℕ)
    → 0 < size
    → size ≤ length sizes
    → size * buffer_size < word_mod
    → IsValid (queue_init size buffer_size sizes)
      × (pending (queue_init size buffer_size sizes) ≡ [])
unfolding queue_init
queue_init-IsValid size buffer_size sizes pos h small = (omega arith, refl)

pub queue_add-IsValid : {q : Queue} (n : ℕ) → IsValid q → IsValid (queue_add q n)
unfolding queue_add
queue_add-IsValid {q} n v = ground (arith, length-set q.message_size_array q.tx_head n)

pub queue_poll-IsValid : {q : Queue} → IsValid q → IsValid (queue_poll q).1
unfolding queue_poll
queue_poll-IsValid v = ground arith

collect-unfolds :
    (xs : List ℕ) (size h n m : ℕ)
    → m ≡ suc n
    → collect 0 xs size h m ≡ get_or xs h 0 ∷ collect 0 xs size (next_index size h) n
collect-unfolds xs size h n m e = rw e

count-queue_add :
    {q : Queue} (n : ℕ) → IsValid q → count q + 1 < q.size → count (queue_add q n) ≡ suc (count q)
unfolding queue_add
count-queue_add n v room = ground arith

-- In a valid queue with fewer than `size - 1` messages pending, `queue_add` puts the new one behind them.
pub pending-queue_add :
    {q : Queue} (n : ℕ)
    → IsValid q
    → count q + 1 < q.size
    → pending (queue_add q n) ≡ pending q ++ (n ∷ [])
pending-queue_add {q} n v room =
    ap (collect 0 (queue_add q n).message_size_array (queue_add q n).size (queue_add q n).rx_head)
      (count-queue_add n v room)
    ∙ unfold queue_add in
      collect-set 0 q.message_size_array q.size q.rx_head (count q) q.tx_head n v.sizes v.rx_in
        (omega arith) (ground arith)

-- In a valid queue with `size - 1` messages pending, `queue_add` loses them all and the new one: the two heads meet,
-- which the queue takes for empty.
pending-queue_add_full :
    {q : Queue} (n : ℕ) → IsValid q → count q + 1 ≡ q.size → pending (queue_add q n) ≡ []
pending-queue_add_full {q} n v full =
    ap (collect 0 (queue_add q n).message_size_array (queue_add q n).size (queue_add q n).rx_head)
      empty
  where
    empty : count (queue_add q n) ≡ 0
    empty = unfold queue_add in ground arith

count-of_eq : {q : Queue} → IsValid q → q.rx_head ≡ q.tx_head → count q ≡ 0
count-of_eq v e = ground arith

count-queue_poll :
    {q : Queue}
    → IsValid q
    → (q.rx_head == q.tx_head) ≡ false
    → count q ≡ suc (count (queue_poll q).1)
unfolding queue_poll
count-queue_poll v differ = ground arith

slot_in_bounds :
    {q : Queue}
    → IsValid q
    → (i : ℕ) → i < q.size
    → mul32 i q.buffer_size + q.buffer_size ≤ q.size * q.buffer_size
unfolding mul32
slot_in_bounds {q} v i h =
    let slots : i * q.buffer_size + q.buffer_size ≤ q.size * q.buffer_size =
      slot_le i q.size q.buffer_size h in
    omega arith

-- the slot of an index, which does not wrap around
slot_at : {q : Queue} → IsValid q → (i : ℕ) → i < q.size → mul32 i q.buffer_size ≡ i * q.buffer_size
unfolding mul32
slot_at {q} v i h =
    let slots : i * q.buffer_size + q.buffer_size ≤ q.size * q.buffer_size =
      slot_le i q.size q.buffer_size h in
    omega (arith, v.small)

-- two slots of so many bytes at their offsets
abbrev pub Apart : ℕ → ℕ → ℕ → Type 0
Apart bytes a b = (a + bytes ≤ b) ⊎ (b + bytes ≤ a)

slots-Apart : (i j b : ℕ) → i ≢ j → Apart b (i * b) (j * b)
slots-Apart i j b differ = elim (Bool-cases (ltb i j)) [
  | inl below ↦ inl (slot_le i j b (ground (arith, below)))
  | inr above ↦ inr (slot_le j i b (ground (arith, above)))
]

-- In a valid queue, `queue_poll` returns NULL and changes nothing when no message is pending;
-- otherwise it returns the slot of index rx_head, which lies in the buffer, with the size of the
-- oldest message, and the others stay pending.
pub queue_poll_takes :
    {q : Queue}
    → IsValid q
    → ((pending q ≡ []) × (queue_poll q ≡ (none, q)))
      ⊎ ((n : ℕ) × ((queue_poll q).0 ≡ some (q.rx_head * q.buffer_size, n))
          × (q.rx_head * q.buffer_size + q.buffer_size ≤ q.size * q.buffer_size)
          × (pending q ≡ n ∷ pending (queue_poll q).1))
queue_poll_takes {q} v = elim (Bool-cases (q.rx_head == q.tx_head)) [
  | inl same ↦ inl (
    ap (collect 0 q.message_size_array q.size q.rx_head)
        (count-of_eq v ((==_iff q.rx_head q.tx_head).0 same)),
    unfold queue_poll in rw same,
  )
  | inr differ ↦ inr (
    get_or q.message_size_array q.rx_head 0,
    (unfold queue_poll in
        rw differ (
          ap (λ (s : ℕ). some (s, get_or q.message_size_array q.rx_head 0))
            (slot_at v q.rx_head v.rx_in))),
    slot_le q.rx_head q.size q.buffer_size v.rx_in,
    collect-unfolds q.message_size_array q.size q.rx_head (count (queue_poll q).1) (count q)
          (count-queue_poll v differ)
        ∙ unfold queue_poll in rw differ,
  )
]

peek_at : {q : Queue} → IsValid q → queue_peek_tx q ≡ q.tx_head * q.buffer_size
unfolding queue_peek_tx
peek_at {q} v = slot_at v q.tx_head v.tx_in

-- In a valid queue, the slot that `queue_peekTx` gives lies in the buffer and shares no byte with the slot of a
-- pending message.
pub queue_peek_tx_free :
    {q : Queue}
    → IsValid q
    → (queue_peek_tx q + q.buffer_size ≤ q.size * q.buffer_size)
      × ((k : ℕ)
          → k < count q
          → Apart q.buffer_size (queue_peek_tx q) (index_at q.size q.rx_head k * q.buffer_size))
queue_peek_tx_free {q} v = (
  unfold queue_peek_tx in slot_in_bounds v q.tx_head v.tx_in,
  λ k h.
      subst (λ s. Apart q.buffer_size s (index_at q.size q.rx_head k * q.buffer_size))
        (sym (peek_at v))
        (slots-Apart q.tx_head (index_at q.size q.rx_head k) q.buffer_size (ground arith)),
)
