-- ===== src/Riscv/AmwHeap.antt =====
-- src/isa/riscv32/atomic_mem_word.c on a heap: the nodes at addresses, linked by pointers. `malloc` of
-- the C library is a parameter, the address that it gives. `none` is an access at `NULL` or at an
-- address without a node, or a walk that is longer than the rounds given to it.
pub mod Chain
pub mod Insert
pub mod Delete
pub mod Refines
use gs_emu.Base.{ℕ, zero, suc, Bool, Option, none, some, ◌==◌, if◌then◌else◌}

-- A node as C lays it out.
pub record Cell : Type 0 where
  pub mem_word : ℕ
  pub reserved : Bool
  pub next_node : ℕ

abbrev pub Heap : Type 0
Heap = ℕ → Option Cell

abbrev pub null : ℕ
null = 0

abbrev pub at : Heap → ℕ → Option Cell → Heap
at h p c x = if x == p then c else h x

-- `*p`.
unfoldable pub deref : Heap → ℕ → Option Cell
deref h p = if p == null then none else h p

-- `p->next_node = q`.
unfoldable pub set_next : ℕ → ℕ → Heap → Option Heap
set_next p q h = elim (deref h p) [
  | none ↦ none
  | some c ↦ some (at h p (some (record c { next_node = q })))
]

-- `free(p)`.
unfoldable pub free : ℕ → Heap → Option Heap
free p h = elim (deref h p) [ none ↦ none | some c ↦ some (at h p none) ]

-- The `while` of `insertNode`.
unfoldable pub last_node : ℕ → ℕ → Heap → Option ℕ
last_node zero temp h = none
last_node (suc fuel) temp h = elim (deref h temp) [
  | none ↦ none
  | some c ↦
      let rest = last_node fuel c.next_node h in if c.next_node == null then some temp else rest
]

unfoldable pub insert_cell : (Heap → ℕ) → ℕ → ℕ → ℕ → Bool → Heap → Option (ℕ × Heap)
insert_cell malloc fuel head data' reserved h =
    let p = malloc h in
    let h' = at h p (some (record { mem_word = data'; reserved = reserved; next_node = null })) in
    if head == null then some (p, h') else elim (last_node fuel head h') [
      | none ↦ none
      | some temp ↦ elim (set_next temp p h') [ none ↦ none | some h'' ↦ some (head, h'') ]
    ]

-- The `while` of `deleteNode`: `prev` and `temp` behind it.
unfoldable pub find_cell : ℕ → ℕ → ℕ → ℕ → Heap → Option (ℕ × ℕ)
find_cell zero data' prev temp h = none
find_cell (suc fuel) data' prev temp h =
    if temp == null then some (prev, temp) else elim (deref h temp) [
      | none ↦ none
      | some c ↦
          let rest = find_cell fuel data' temp c.next_node h in
          if c.mem_word == data' then some (prev, temp) else rest
    ]

-- What `deleteNode` does behind the loop.
unfoldable pub unlink : ℕ → ℕ → ℕ → Heap → Option (ℕ × Heap)
unlink head prev temp h = if temp == null then some (head, h) else elim (deref h temp) [
  | none ↦ none
  | some c ↦
      if prev == null
      then (elim (free temp h) [ none ↦ none | some h' ↦ some (c.next_node, h') ])
      else elim (set_next prev c.next_node h) [
        | none ↦ none
        | some h' ↦ elim (free temp h') [ none ↦ none | some h'' ↦ some (head, h'') ]
      ]
]

unfoldable pub delete_cell : ℕ → ℕ → ℕ → Heap → Option (ℕ × Heap)
delete_cell fuel head data' h = elim (find_cell fuel data' null head h) [
  | none ↦ none
  | some (prev, temp) ↦ unlink head prev temp h
]

-- The address of the node, `NULL` where there is none.
unfoldable pub search_cell : ℕ → ℕ → ℕ → Heap → Option ℕ
search_cell zero temp data' h = none
search_cell (suc fuel) temp data' h = if temp == null then some null else elim (deref h temp) [
  | none ↦ none
  | some c ↦
      let rest = search_cell fuel c.next_node data' h in
      if c.mem_word == data' then some temp else rest
]

unfoldable pub update_cell : ℕ → ℕ → Bool → Heap → Option Heap
update_cell node new_data new_reserved h = if node == null then some h else elim (deref h node) [
  | none ↦ none
  | some c ↦ some (at h node (some (record c { mem_word = new_data; reserved = new_reserved })))
]
