-- ===== src/Heap/Memory.antt =====
-- Block headers in memory, and writes to their fields.
use common_lib.Prelude.{ℕ, ◌==◌, if◌then◌else◌}

pub record Header : Type 0 where
  pub prev : ℕ
  pub next : ℕ
  pub size : ℕ

abbrev pub Mem : Type 0
Mem = ℕ → Header

unfoldable pub set_prev : Mem → ℕ → ℕ → Mem
set_prev m a v b = if b == a then record (m b) { prev = v } else m b

unfoldable pub set_next : Mem → ℕ → ℕ → Mem
set_next m a v b = if b == a then record (m b) { next = v } else m b

unfoldable pub set_size : Mem → ℕ → ℕ → Mem
set_size m a v b = if b == a then record (m b) { size = v } else m b
