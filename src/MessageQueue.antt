-- ===== src/MessageQueue.antt =====
-- queue.c: a queue of messages in a caller's buffer of `size` slots. A producer writes a message
-- into the slot that `queue_peekTx` gives, and `queue_add` hands it over.
pub mod Laws
mod Tests
use common_lib.Prelude.{
  ℕ, ◌+◌, ◌==◌, leb, mul32, if◌then◌else◌, Option, none, some, List, get_or, set,
}
use common_lib.Ring.{next_index}

-- `Queue`: `buffer` is passed through only as an address, so a slot is its offset there.
pub record Queue : Type 0 where
  pub size : ℕ
  pub buffer_size : ℕ
  pub rx_head : ℕ
  pub tx_head : ℕ
  pub message_size_array : List ℕ

pub queue_init : ℕ → ℕ → List ℕ → Queue
queue_init size buffer_size sizes = record {
  size = size;
  buffer_size = buffer_size;
  rx_head = 0;
  tx_head = 0;
  message_size_array = sizes;
}

-- The slot's offset and its message's size, or NULL. `Laws.in_bounds` rules out a read of
-- `message_size_array` past its end, for which `get_or` has 0.
pub queue_poll : Queue → Option (ℕ × ℕ) × Queue
unfolding mul32
queue_poll q = if q.rx_head == q.tx_head then (none, q) else (
  some (mul32 q.rx_head q.buffer_size, get_or q.message_size_array q.rx_head 0),
  record q { rx_head = next_index q.size q.rx_head },
)

-- the offset of the slot to write to
pub queue_peek_tx : Queue → ℕ
unfolding mul32
queue_peek_tx q = mul32 q.tx_head q.buffer_size

pub queue_add : Queue → ℕ → Queue
queue_add q message_size = record q {
  message_size_array = set q.message_size_array q.tx_head message_size;
  tx_head = next_index q.size q.tx_head;
}
