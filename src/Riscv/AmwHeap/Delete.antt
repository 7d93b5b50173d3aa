-- ===== src/Riscv/AmwHeap/Delete.antt =====
-- `deleteNode` of src/isa/riscv32/atomic_mem_word.c on the heap.
use gs_emu.Base.{
  ℕ, zero, suc, ◌≡◌, ◌≢◌, ◌<◌, refl, sym, ap, false, none, some, List, [], ◌∷◌, ◌==◌, length,
  Bool-cases, inl, inr, ◌∙◌, arith,
}
use gs_emu.Riscv.Amw.{Node, delete_node}
use gs_emu.Riscv.AmwHeap.{Cell, Heap, null, at, set_next, free, find_cell, unlink, delete_cell}
use gs_emu.Riscv.AmwHeap.Chain.{
  first, Absent, cell, Chain, Represents, at-other, at-same, Chain-at, deref-some, set_next-some,
}

free-some : (h : Heap) (a : ℕ) (c : Cell) → a ≢ null → h a ≡ some c → free a h ≡ some (at h a none)
unfolding free
free-some h a c z e = rw (free, deref-some h a c z e) refl

unlink-middle :
    (head prev temp : ℕ) (c : Cell) (h g k : Heap)
    → prev ≢ null
    → temp ≢ null
    → h temp ≡ some c
    → set_next prev c.next_node h ≡ some g
    → free temp g ≡ some k
    → unlink head prev temp h ≡ some (head, k)
unfolding unlink
unlink-middle head prev temp c h g k y z e linked freed =
    let ny : (prev == null) ≡ false = ground arith in
    let nz : (temp == null) ≡ false = ground arith in
    rw (unlink, nz, deref-some h temp c z e, ny, linked, freed) refl

unlink-head :
    (head temp : ℕ) (c : Cell) (h k : Heap)
    → temp ≢ null
    → h temp ≡ some c
    → free temp h ≡ some k
    → unlink head null temp h ≡ some (c.next_node, k)
unfolding unlink
unlink-head head temp c h k z e freed =
    let nz : (temp == null) ≡ false = ground arith in
    rw (unlink, nz, deref-some h temp c z e, freed) refl

-- `deleteNode` from the nodes `ps` behind the node `prev`, which holds `c`.
abbrev Removed : Heap → ℕ → Cell → ℕ → ℕ → ℕ → List ℕ → List Node → Type 0
Removed h prev c fuel head w ps ns =
    (h' : Heap) × (qs : List ℕ) × (elim (find_cell fuel w prev (first ps) h) [
      | none ↦ none
      | some (p, t) ↦ unlink head p t h
    ]
      ≡ some (head, h'))
    × (h' prev ≡ some (record c { next_node = first qs }))
    × ((x : ℕ) → Absent x (prev ∷ ps) → h' x ≡ h x)
    × ((x : ℕ) → Absent x ps → Absent x qs)
    × Chain h' qs (delete_node ns w)

same_next : (c : Cell) (q : ℕ) → c.next_node ≡ q → c ≡ record c { next_node = q }
same_next c q e = ap (λ x. record c { next_node = x }) e

remove-Removed :
    (h : Heap) (prev : ℕ) (c : Cell) (ps : List ℕ) (ns : List Node) (w fuel head : ℕ)
    → prev ≢ null
    → h prev ≡ some c
    → c.next_node ≡ first ps
    → Absent prev ps
    → Chain h ps ns
    → length ps < fuel
    → Removed h prev c fuel head w ps ns
unfolding find_cell unlink delete_node
remove-Removed h prev c ps ns w zero head y at_prev next o k f = absurd (omega arith)
remove-Removed h prev c [] [] w (suc fuel) head y at_prev next o k f =
    (h, [], refl, at_prev ∙ ap some (same_next c null next), (λ x q. refl), (λ x q. q), tt)
remove-Removed h prev c (a ∷ ps) (n ∷ ns) w (suc fuel) head y at_prev next (o, os) (z, e, u, k) f =
    let nz : (a == null) ≡ false = ground arith in
    let d = deref-some h a (cell n (first ps)) z e in
    elim (Bool-cases (n.mem_word == w)) [
      | inl same ↦
          let g = at h prev (some (record c { next_node = first ps })) in
          let ga = at-other h prev a _ (λ q. o (sym q)) ∙ e in
          (
            at g a none,
            ps,
            rw (find_cell, nz, d, same)
                (unlink-middle head prev a (cell n (first ps)) h g (at g a none) y z e
                  (set_next-some h prev (first ps) c y at_prev)
                  (free-some g a (cell n (first ps)) z ga)),
            at-other g a prev none o ∙ at-same h prev _,
            (λ x (i, js). at-other g a x none js.0 ∙ at-other h prev x _ i),
            (λ x (j, js). js),
            rw (delete_node, same) (Chain-at g a none ps ns u (Chain-at h prev _ ps ns os k)),
          )
      | inr other ↦
          let (h', qs, goes, at_a, frame, kept, chain) =
            remove-Removed h a (cell n (first ps)) ps ns w fuel head z e refl u k (omega arith) in
          (
            h',
            a ∷ qs,
            rw (find_cell, nz, d, other) goes,
            frame prev (o, os) ∙ at_prev ∙ ap some (same_next c a next),
            (λ x (i, js). frame x js),
            (λ x (j, js). (j, kept x js)),
            rw (delete_node, other) (z, at_a, kept a u, chain),
          )
    ]
remove-Removed h prev c [] (n ∷ ns) w (suc fuel) head y at_prev next o k f = elim k [ ]
remove-Removed h prev c (a ∷ ps) [] w (suc fuel) head y at_prev next o k f = elim k [ ]

-- `deleteNode` on a list: the list without its first node with the word.
pub delete_cell-Represents :
    (h : Heap) (ps : List ℕ) (ns : List Node) (w fuel : ℕ)
    → Chain h ps ns
    → length ps < fuel
    → (p : ℕ) × (h' : Heap) × (delete_cell fuel (first ps) w h ≡ some (p, h'))
      × Represents h' p (delete_node ns w)
unfolding delete_cell find_cell unlink delete_node
delete_cell-Represents h ps ns w zero k f = absurd (omega arith)
delete_cell-Represents h [] [] w (suc fuel) k f = (null, h, refl, ([], refl, tt))
delete_cell-Represents h (a ∷ ps) (n ∷ ns) w (suc fuel) (z, e, u, k) f =
    let nz : (a == null) ≡ false = ground arith in
    let d = deref-some h a (cell n (first ps)) z e in
    elim (Bool-cases (n.mem_word == w)) [
      | inl same ↦ (
        first ps,
        at h a none,
        rw (delete_cell, find_cell, nz, d, same)
            (unlink-head a a (cell n (first ps)) h (at h a none) z e
              (free-some h a (cell n (first ps)) z e)),
        rw (delete_node, same) (ps, refl, Chain-at h a none ps ns u k),
      )
      | inr other ↦
          let (h', qs, goes, at_a, frame, kept, chain) =
            remove-Removed h a (cell n (first ps)) ps ns w fuel a z e refl u k (omega arith) in
          (
            a,
            h',
            rw (delete_cell, find_cell, nz, d, other) goes,
            rw (delete_node, other) (a ∷ qs, refl, (z, at_a, kept a u, chain)),
          )
    ]
delete_cell-Represents h [] (n ∷ ns) w (suc fuel) k f = elim k [ ]
delete_cell-Represents h (a ∷ ps) [] w (suc fuel) k f = elim k [ ]
