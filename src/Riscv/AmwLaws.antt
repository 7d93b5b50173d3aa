-- ===== src/Riscv/AmwLaws.antt =====
-- The reserved words of `lr.w` and `sc.w` (src/isa/riscv32/atomic_mem_word.c) against the multiset of
-- words that the list stands for.
use gs_emu.Base.{
  ℕ, ◌+◌, ◌-◌, ◌≡◌, Bool, Option, none, some, List, [], ◌∷◌, ◌==◌, if◌then◌else◌, arith, ◌≤◌,
}
use gs_emu.Riscv.Amw.{Node, create_node, insert_node, delete_node, search_node}

-- How often the word is in the list.
unfoldable pub count : List Node → ℕ → ℕ
count [] w = 0
count (n ∷ ns) w = let rest = count ns w in if n.mem_word == w then rest + 1 else rest

-- A search finds a node with the word exactly when the list has one.
abbrev pub Found : Option Node → ℕ → ℕ → Type 0
Found none w k = k ≡ 0
Found (some n) w k = (n.mem_word ≡ w) × (1 ≤ k)

insert_node-count :
    (ns : List Node) (w v : ℕ) (r : Bool)
    → count (insert_node ns w r) v ≡ count ns v + (if w == v then 1 else 0)
unfolding count insert_node create_node
insert_node-count [] w v r = ground arith
insert_node-count (n ∷ ns) w v r = ground (arith, insert_node-count ns w v r)

delete_node-count :
    (ns : List Node) (w v : ℕ) → count (delete_node ns w) v ≡ count ns v - (if w == v then 1 else 0)
unfolding count delete_node
delete_node-count [] w v = ground arith
delete_node-count (n ∷ ns) w v = ground (arith, delete_node-count ns w v)

search_node-Found : (ns : List Node) (w : ℕ) → Found (search_node ns w) w (count ns w)
unfolding count search_node
search_node-Found [] w = ground arith
search_node-Found (n ∷ ns) w = ground (arith, search_node-Found ns w)

-- After a reservation is added, the list has one more node with its word and as many as before
-- with any other word; after a deletion it has one node less with the word, if it had one, and
-- as many as before with any other; a search gives a node with the word when the list has one,
-- and none when it has not.
pub reserved_words_count :
    (ns : List Node) (w v : ℕ) (r : Bool)
    → (count (insert_node ns w r) v ≡ count ns v + (if w == v then 1 else 0))
      × (count (delete_node ns w) v ≡ count ns v - (if w == v then 1 else 0))
      × Found (search_node ns w) w (count ns w)
reserved_words_count ns w v r =
    (insert_node-count ns w v r, delete_node-count ns w v, search_node-Found ns w)
