-- ===== src/MessageQueue/Tests.antt =====
-- A queue of three slots of eight bytes.
use common_lib.Prelude.{ℕ, ◌+◌, ◌*◌, ◌≤◌, ◌<◌, ◌≡◌, ◌⊎◌, refl, arith, none, some, [], ◌∷◌}
use common_lib.Ring.{index_at}
use common_lib.MessageQueue.{Queue, queue_poll, queue_peek_tx, queue_add}
use common_lib.MessageQueue.Laws.{
  IsValid, Apart, pending, count, pending-queue_add, queue_poll_takes, queue_peek_tx_free,
}

-- one message of five bytes, in the last slot
abbrev one : Queue
one = record {
  size = 3;
  buffer_size = 8;
  rx_head = 2;
  tx_head = 0;
  message_size_array = 0 ∷ 4 ∷ 5 ∷ [];
}

abbrev two : Queue
two = record {
  size = 3;
  buffer_size = 8;
  rx_head = 2;
  tx_head = 1;
  message_size_array = 6 ∷ 4 ∷ 5 ∷ [];
}

one-IsValid : IsValid one
one-IsValid = omega arith

two-IsValid : IsValid two
two-IsValid = omega arith

queue_add_runs : queue_add one 6 ≡ two
unfolding queue_add
queue_add_runs = refl

pending-queue_add_example : pending (queue_add one 6) ≡ 5 ∷ 6 ∷ []
pending-queue_add_example = pending-queue_add 6 one-IsValid (omega arith)

queue_poll_takes_example :
    ((pending two ≡ []) × (queue_poll two ≡ (none, two)))
    ⊎ ((n : ℕ) × ((queue_poll two).0 ≡ some (16, n))
        × (16 + 8 ≤ 3 * 8)
        × (pending two ≡ n ∷ pending (queue_poll two).1))
queue_poll_takes_example = queue_poll_takes two-IsValid

queue_peek_tx_free_example :
    (queue_peek_tx two + 8 ≤ 3 * 8)
    × ((k : ℕ) → k < count two → Apart 8 (queue_peek_tx two) (index_at 3 2 k * 8))
queue_peek_tx_free_example = queue_peek_tx_free two-IsValid
