-- ===== src/Sdb/Watchpoint.antt =====
-- src/monitor/sdb/watchpoint.c: the pool of watchpoints as the program starts it. A pointer is an
-- index into the pool, `none` is NULL.
use gs_emu.Base.{ℕ, zero, suc, ◌+◌, ◌-◌, Option, none, some, List, ◌==◌, if◌then◌else◌, set}

-- `WP`.
pub record Watchpoint : Type 0 where
  pub no : ℕ
  pub next : Option ℕ

abbrev pub nr_wp : ℕ
nr_wp = 32

pub record Pool : Type 0 where
  pub wp_pool : List Watchpoint
  pub head : Option ℕ
  pub free : Option ℕ

-- The `for`, `n` rounds from `i` on.
unfoldable pub link_from : ℕ → ℕ → List Watchpoint → List Watchpoint
link_from zero i ws = ws
link_from (suc n) i ws =
    link_from n (i + 1)
      (set ws i (record { no = i; next = if i == nr_wp - 1 then none else some (i + 1) }))

unfoldable pub init_wp_pool : Pool → Pool
init_wp_pool p = record { wp_pool = link_from nr_wp 0 p.wp_pool; head = none; free = some 0 }
