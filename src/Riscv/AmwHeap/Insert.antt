-- ===== src/Riscv/AmwHeap/Insert.antt =====
-- `insertNode` of src/isa/riscv32/atomic_mem_word.c on the heap.
use gs_emu.Base.{
  ℕ, zero, suc, ◌≡◌, ◌≢◌, ◌<◌, refl, sym, ap, Bool, false, none, some, List, [], ◌∷◌, ◌++◌, ◌==◌,
  length, ◌∙◌, arith,
}
use gs_emu.Riscv.Amw.{Node, create_node, insert_node}
use gs_emu.Riscv.AmwHeap.{Cell, Heap, null, at, set_next, last_node, insert_cell}
use gs_emu.Riscv.AmwHeap.Chain.{
  first, Absent, cell, Chain, Represents, at-other, at-same, Chain-at, deref-some, set_next-some,
}

-- What is documented of `malloc`, where it does not fail: an address that no node has.
pub record IsMalloc (malloc : Heap → ℕ) (h : Heap) : Type 0 where
  pub not_null : malloc h ≢ null
  pub fresh : h (malloc h) ≡ none

fresh-Absent :
    (h : Heap) (x : ℕ) (ps : List ℕ) (ns : List Node) → h x ≡ none → Chain h ps ns → Absent x ps
fresh-Absent h x [] [] e k = tt
fresh-Absent h x (a ∷ ps) (n ∷ ns) e (z, f, u, k) =
    ((λ same. cc (sym e ∙ ap h same ∙ f)), fresh-Absent h x ps ns e k)
fresh-Absent h x [] (n ∷ ns) e k = elim k [ ]
fresh-Absent h x (a ∷ ps) [] e k = elim k [ ]

-- A pointer to a new node put into the last one.
abbrev Appended : Heap → ℕ → ℕ → ℕ → List ℕ → List Node → Type 0
Appended h p fuel a ps ns =
    (l : ℕ) × (h' : Heap) × (last_node fuel a h ≡ some l)
    × (set_next l p h ≡ some h')
    × ((x : ℕ) → Absent x (a ∷ ps) → h' x ≡ h x)
    × Chain h' (a ∷ (ps ++ (p ∷ []))) ns

Absent-end : (a p : ℕ) (ps : List ℕ) → Absent a ps → a ≢ p → Absent a (ps ++ (p ∷ []))
Absent-end a p [] u e = (e, tt)
Absent-end a p (b ∷ bs) (d, u) e = (d, Absent-end a p bs u e)

append-Appended :
    (h : Heap) (p a w : ℕ) (n : Node) (r : Bool) (ps : List ℕ) (ns : List Node) (fuel : ℕ)
    → p ≢ null
    → h p ≡ some (cell (create_node w r) null)
    → Absent p (a ∷ ps)
    → Chain h (a ∷ ps) (n ∷ ns)
    → length ps < fuel
    → Appended h p fuel a ps (insert_node (n ∷ ns) w r)
unfolding last_node insert_node
append-Appended h p a w n r ps ns zero y new o k f = absurd (omega arith)
append-Appended h p a w n r [] [] (suc fuel) y new (o, os) (z, e, u, k) f =
    let c = deref-some h a (cell n null) z e in
    (
      a,
      at h a (some (cell n p)),
      rw (last_node, c) refl,
      set_next-some h a p (cell n null) z e,
      (λ x (d, ds). at-other h a x _ d),
      (z, at-same h a _, ((λ q. o (sym q)), tt), (y, at-other h a p _ o ∙ new, tt, tt)),
    )
append-Appended h p a w n r (b ∷ bs) (m ∷ ms) (suc fuel) y new (o, os) (z, e, u, k) f =
    let c = deref-some h a (cell n b) z e in
    let nz : (b == null) ≡ false = let d = k.0 in ground arith in
    let (l, h', ends, put', frame, chain) =
      append-Appended h p b w m r bs ms fuel y new os k (omega arith) in
    (
      l,
      h',
      rw (last_node, c, nz) ends,
      put',
      (λ x (d, ds). frame x ds),
      (z, frame a u ∙ e, Absent-end a p (b ∷ bs) u (λ q. o (sym q)), chain),
    )
append-Appended h p a w n r [] (m ∷ ms) (suc fuel) y new o (z, e, u, k) f = elim k [ ]
append-Appended h p a w n r (b ∷ bs) [] (suc fuel) y new o (z, e, u, k) f = elim k [ ]

-- `insertNode` on a list: a list with the node behind the others.
pub insert_cell-Represents :
    (malloc : Heap → ℕ) (h : Heap) (ps : List ℕ) (ns : List Node) (w fuel : ℕ) (r : Bool)
    → IsMalloc malloc h
    → Chain h ps ns
    → length ps < fuel
    → (p : ℕ) × (h' : Heap) × (insert_cell malloc fuel (first ps) w r h ≡ some (p, h'))
      × Represents h' p (insert_node ns w r)
unfolding insert_cell insert_node create_node
insert_cell-Represents malloc h [] [] w fuel r m k f =
    let p = malloc h in
    let c : Cell = record { mem_word = w; reserved = r; next_node = null } in
    (p, at h p (some c), refl, (p ∷ [], refl, (m.not_null, at-same h p (some c), tt, tt)))
insert_cell-Represents malloc h (a ∷ ps) (n ∷ ns) w fuel r m k f =
    let p = malloc h in
    let c : Cell = record { mem_word = w; reserved = r; next_node = null } in
    let g = at h p (some c) in
    let absent = fresh-Absent h p (a ∷ ps) (n ∷ ns) m.fresh k in
    let nz : (a == null) ≡ false = let d = k.0 in ground arith in
    let (l, h', ends, linked, frame, chain) =
      append-Appended g p a w n r ps ns fuel (m.not_null) (at-same h p (some c)) absent
        (Chain-at h p (some c) (a ∷ ps) (n ∷ ns) absent k) (omega arith) in
    (a, h', rw (insert_cell, nz, ends, linked) refl, (a ∷ (ps ++ (p ∷ [])), refl, chain))
insert_cell-Represents malloc h [] (n ∷ ns) w fuel r m k f = elim k [ ]
insert_cell-Represents malloc h (a ∷ ps) [] w fuel r m k f = elim k [ ]
