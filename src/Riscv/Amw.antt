-- ===== src/Riscv/Amw.antt =====
-- src/isa/riscv32/atomic_mem_word.c: the list of reserved words, head first. `NULL` is the empty
-- list, and a search returns the node's value where the source returns a pointer to it.
use gs_emu.Base.{ℕ, Bool, Option, none, some, List, [], ◌∷◌, ◌==◌, if◌then◌else◌}

pub record Node : Type 0 where
  pub mem_word : ℕ
  pub reserved : Bool

unfoldable pub create_node : ℕ → Bool → Node
create_node data' r = record { mem_word = data'; reserved = r }

-- The new node comes behind the last one.
unfoldable pub insert_node : List Node → ℕ → Bool → List Node
unfolding create_node
insert_node [] w r = create_node w r ∷ []
insert_node (n ∷ ns) w r = n ∷ insert_node ns w r

-- Only the first node with the word goes; without one the list stays.
unfoldable pub delete_node : List Node → ℕ → List Node
delete_node [] w = []
delete_node (n ∷ ns) w = if n.mem_word == w then ns else n ∷ delete_node ns w

unfoldable pub search_node : List Node → ℕ → Option Node
search_node [] w = none
search_node (n ∷ ns) w = if n.mem_word == w then some n else search_node ns w
