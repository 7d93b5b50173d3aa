-- ===== src/Bus.antt =====
-- What the processor asks of the memory system (src/memory/vaddr.c `vaddr_read`, `vaddr_write`):
-- the operations, and that a value read is a word. `none` is a failed assertion of the memory side.
use gs_emu.Base.{ℕ, ◌^◌, ◌<◌, ◌≡◌, Option, some}

pub record Bus : Type 1 where
  pub State : Type 0
  pub read : ℕ → ℕ → State → Option (ℕ × State)
  pub write : ℕ → ℕ → ℕ → State → Option State
  pub read_lt : (a n v : ℕ) (s t : State) → read a n s ≡ some (v, t) → v < 2 ^ 32
