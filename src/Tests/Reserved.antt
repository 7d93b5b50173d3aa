-- ===== src/Tests/Reserved.antt =====
-- The reserved words on a heap of two nodes.
use gs_emu.Base.{ℕ, ◌≡◌, refl, true, none, some, [], ◌∷◌, List, ◌==◌, if◌then◌else◌, arith}
use gs_emu.Riscv.Amw.{Node, insert_node, delete_node, search_node}
use gs_emu.Riscv.AmwHeap.{Heap, insert_cell, delete_cell, search_cell}
use gs_emu.Riscv.AmwHeap.Chain.{Represents, FoundAt}
use gs_emu.Riscv.AmwHeap.Insert.{IsMalloc}
use gs_emu.Riscv.AmwHeap.Refines.{heap-Represents}

abbrev heap : Heap
heap p =
    if p == 16
    then some (record { mem_word = 100; reserved = true; next_node = 32 })
    else if p == 32
    then some (record { mem_word = 200; reserved = true; next_node = 0 })
    else none

abbrev words : List Node
words = record { mem_word = 100; reserved = true } ∷ record { mem_word = 200; reserved = true } ∷ []

abbrev malloc : Heap → ℕ
malloc h = 48

malloc-IsMalloc : IsMalloc malloc heap
malloc-IsMalloc = record { not_null = λ e. omega arith; fresh = refl }

heap-words : Represents heap 16 words
heap-words = (
  16 ∷ 32 ∷ [],
  refl,
  ((λ e. omega arith), refl, ((λ e. omega arith), tt), ((λ e. omega arith), refl, tt, tt)),
)

-- The word 200, and three rounds.
heap-Represents_example :
    ((q : ℕ) × (h' : Heap) × (insert_cell malloc 3 16 200 true heap ≡ some (q, h'))
      × Represents h' q (insert_node words 200 true))
    × ((q : ℕ) × (h' : Heap) × (delete_cell 3 16 200 heap ≡ some (q, h'))
        × Represents h' q (delete_node words 200))
    × ((q : ℕ) × (search_cell 3 16 200 heap ≡ some q) × FoundAt heap q (search_node words 200))
heap-Represents_example =
    heap-Represents malloc heap 16 words 200 3 true malloc-IsMalloc heap-words (omega arith)
