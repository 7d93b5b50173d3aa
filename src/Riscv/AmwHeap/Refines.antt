-- ===== src/Riscv/AmwHeap/Refines.antt =====
-- The heap of src/isa/riscv32/atomic_mem_word.c against the list of reserved words.
use gs_emu.Base.{ℕ, ◌≡◌, ◌<◌, refl, Bool, some, List, [], ◌∷◌, length, arith}
use gs_emu.Riscv.Amw.{Node, insert_node, delete_node, search_node}
use gs_emu.Riscv.AmwHeap.{Heap, insert_cell, delete_cell, search_cell}
use gs_emu.Riscv.AmwHeap.Chain.{Chain, Represents, FoundAt, search_cell-FoundAt}
use gs_emu.Riscv.AmwHeap.Insert.{IsMalloc, insert_cell-Represents}
use gs_emu.Riscv.AmwHeap.Delete.{delete_cell-Represents}

Chain-length : (h : Heap) (ps : List ℕ) (ns : List Node) → Chain h ps ns → length ps ≡ length ns
Chain-length h [] [] k = refl
Chain-length h (a ∷ ps) (n ∷ ns) (z, e, u, k) = omega (arith, Chain-length h ps ns k)
Chain-length h [] (n ∷ ns) k = elim k [ ]
Chain-length h (a ∷ ps) [] k = elim k [ ]

-- On a heap where a pointer leads through nodes at addresses of their own to the list of
-- reserved words, with more rounds than nodes and a `malloc` that gives an unused address,
-- `insertNode`, `deleteNode` and `searchNode` return without a bad access: the pointer then
-- leads to the list with the node at the end, and to the list without its first node with the
-- word, and the address found holds the first node with the word, or is NULL when the list has
-- none.
pub heap-Represents :
    (malloc : Heap → ℕ) (h : Heap) (p : ℕ) (ns : List Node) (w fuel : ℕ) (r : Bool)
    → IsMalloc malloc h
    → Represents h p ns
    → length ns < fuel
    → ((q : ℕ) × (h' : Heap) × (insert_cell malloc fuel p w r h ≡ some (q, h'))
        × Represents h' q (insert_node ns w r))
      × ((q : ℕ) × (h' : Heap) × (delete_cell fuel p w h ≡ some (q, h'))
          × Represents h' q (delete_node ns w))
      × ((q : ℕ) × (search_cell fuel p w h ≡ some q) × FoundAt h q (search_node ns w))
heap-Represents malloc h p ns w fuel r m (ps, e, k) f =
    let enough : length ps < fuel = omega (arith, Chain-length h ps ns k) in
    rw e (
      insert_cell-Represents malloc h ps ns w fuel r m k enough,
      delete_cell-Represents h ps ns w fuel k enough,
      search_cell-FoundAt h ps ns w fuel k enough,
    )
