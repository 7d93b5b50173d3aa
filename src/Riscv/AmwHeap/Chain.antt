-- ===== src/Riscv/AmwHeap/Chain.antt =====
-- The list of reserved words that the nodes of src/isa/riscv32/atomic_mem_word.c stand for, and the
-- search in it.
use gs_emu.Base.{
  ℕ, zero, suc, ◌≡◌, ◌≢◌, ◌<◌, refl, sym, false, Option, none, some, List, [], ◌∷◌, ◌==◌, length,
  Bool-cases, inl, inr, ◌∙◌, arith,
}
use gs_emu.Riscv.Amw.{Node, search_node}
use gs_emu.Riscv.AmwHeap.{Cell, Heap, null, at, deref, set_next, search_cell}

abbrev pub first : List ℕ → ℕ
first [] = null
first (a ∷ ps) = a

abbrev pub Absent : ℕ → List ℕ → Type 0
Absent a [] = Unit {0}
Absent a (b ∷ bs) = (a ≢ b) × Absent a bs

abbrev pub cell : Node → ℕ → Cell
cell n q = record { mem_word = n.mem_word; reserved = n.reserved; next_node = q }

-- The nodes `ns` stand at the addresses `ps`, no two at one, each with a pointer to the next.
abbrev pub Chain : Heap → List ℕ → List Node → Type 0
Chain h [] [] = Unit {0}
Chain h (a ∷ ps) (n ∷ ns) =
    (a ≢ null) × (h a ≡ some (cell n (first ps))) × Absent a ps × Chain h ps ns
Chain h [] (n ∷ ns) = ⊥
Chain h (a ∷ ps) [] = ⊥

-- The list that a pointer stands for.
abbrev pub Represents : Heap → ℕ → List Node → Type 0
Represents h p ns = (ps : List ℕ) × (p ≡ first ps) × Chain h ps ns

pub at-other : (h : Heap) (p x : ℕ) (c : Option Cell) → x ≢ p → at h p c x ≡ h x
at-other h p x c e = ground arith

pub Chain-at :
    (h : Heap) (x : ℕ) (c : Option Cell) (ps : List ℕ) (ns : List Node)
    → Absent x ps
    → Chain h ps ns
    → Chain (at h x c) ps ns
Chain-at h x c [] [] o k = tt
Chain-at h x c (a ∷ ps) (n ∷ ns) (o, os) (z, e, u, k) =
    (z, at-other h x a c (λ q. o (sym q)) ∙ e, u, Chain-at h x c ps ns os k)
Chain-at h x c [] (n ∷ ns) o k = elim k [ ]
Chain-at h x c (a ∷ ps) [] o k = elim k [ ]

pub deref-some : (h : Heap) (p : ℕ) (c : Cell) → p ≢ null → h p ≡ some c → deref h p ≡ some c
unfolding deref
deref-some h p c z e = let nz : (p == null) ≡ false = ground arith in rw (deref, nz) e

deref-null : (h : Heap) → deref h null ≡ none
unfolding deref
deref-null h = refl

-- Where the search ends.
abbrev pub FoundAt : Heap → ℕ → Option Node → Type 0
FoundAt h p none = p ≡ null
FoundAt h p (some n) = (p ≢ null) × (q : ℕ) × (h p ≡ some (cell n q))

pub search_cell-FoundAt :
    (h : Heap) (ps : List ℕ) (ns : List Node) (w fuel : ℕ)
    → Chain h ps ns
    → length ps < fuel
    → (p : ℕ) × (search_cell fuel (first ps) w h ≡ some p) × FoundAt h p (search_node ns w)
unfolding search_cell search_node
search_cell-FoundAt h ps ns w zero k f = absurd (omega arith)
search_cell-FoundAt h [] [] w (suc fuel) k f = (null, refl, refl)
search_cell-FoundAt h (a ∷ ps) (n ∷ ns) w (suc fuel) (z, e, u, k) f =
    let nz : (a == null) ≡ false = ground arith in
    let c = deref-some h a (cell n (first ps)) z e in
    elim (Bool-cases (n.mem_word == w)) [
      | inl same ↦ (a, rw (search_cell, nz, c, same) refl, rw (search_node, same) (z, first ps, e))
      | inr other ↦
          let (p, found, there) = search_cell-FoundAt h ps ns w fuel k (omega arith) in
          (p, rw (search_cell, nz, c, other) found, rw (search_node, other) there)
    ]
search_cell-FoundAt h [] (n ∷ ns) w (suc fuel) k f = elim k [ ]
search_cell-FoundAt h (a ∷ ps) [] w (suc fuel) k f = elim k [ ]

pub at-same : (h : Heap) (p : ℕ) (c : Option Cell) → at h p c p ≡ c
at-same h p c = ground arith

pub set_next-some :
    (h : Heap) (a q : ℕ) (c : Cell)
    → a ≢ null
    → h a ≡ some c
    → set_next a q h ≡ some (at h a (some (record c { next_node = q })))
unfolding set_next
set_next-some h a q c z e = rw (set_next, deref-some h a c z e) refl
