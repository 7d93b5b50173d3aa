-- ===== src/Memory/IoMapLaws.antt =====
-- The regions of the devices never share an address (src/device/io/mmio.c).
use gs_emu.Base.{
  ℕ, ◌+◌, ◌%◌, ◌<◌, ◌≤◌, ◌≡◌, ◌⊎◌, inl, inr, sym, ap, subst, true, false, Bool-cases, Option, some,
  List, [], ◌∷◌, ◌++◌, arith,
}
use gs_emu.Memory.IoMap.{
  IoMap, Callback, map_inside, fetch_map, add_mmio_map, right_end, overlaps, overlaps_any,
  new_space, io_space_max,
}

module _ {D : Type 0} where
  -- The region is in the table.
  abbrev pub In : IoMap D → List (IoMap D) → Type 0
  In m [] = ⊥
  In m (n ∷ ns) = (m ≡ n) ⊎ In m ns

  -- No address is in both.
  abbrev pub Apart : IoMap D → IoMap D → Type 0
  Apart m n = (addr : ℕ) → map_inside m addr ≡ true → map_inside n addr ≡ false

  -- No address is in two of the regions.
  abbrev pub Disjoint : List (IoMap D) → Type 0
  Disjoint [] = Unit
  Disjoint (m ∷ ms) = ((n : IoMap D) → In n ms → Apart m n) × Disjoint ms

  overlaps-Apart : (m n : IoMap D) → overlaps n.low n.high m ≡ false → Apart m n
  unfolding map_inside
  overlaps-Apart m n h addr inside = ground arith

  In-append : (n r : IoMap D) (ms : List (IoMap D)) → In n (ms ++ r ∷ []) → In n ms ⊎ (n ≡ r)
  In-append n r [] (inl e) = inr e
  In-append n r [] (inr bad) = elim bad [ ]
  In-append n r (m ∷ ms) (inl e) = inl (inl e)
  In-append n r (m ∷ ms) (inr h) = elim (In-append n r ms h) [ inl i ↦ inl (inr i) | inr e ↦ inr e ]

  Disjoint-append :
      (ms : List (IoMap D)) (r : IoMap D)
      → Disjoint ms
      → overlaps_any r.low r.high ms ≡ false
      → Disjoint (ms ++ r ∷ [])
  Disjoint-append [] r h free = (λ n bad. elim bad [ ], tt)
  Disjoint-append (m ∷ ms) r (first, rest) free =
      let here : overlaps r.low r.high m ≡ false = ground arith in
      let there : overlaps_any r.low r.high ms ≡ false = ground arith in
      (
        λ n i. elim (In-append n r ms i) [
          | inl old ↦ first n old
          | inr new ↦ subst (Apart m) (sym new) (overlaps-Apart m r here)
        ],
        Disjoint-append ms r rest there,
      )

  -- When no address is in two regions of the table and `add_mmio_map` accepts one more region,
  -- no address is in two regions of the new table.
  pub add_mmio_map-Disjoint :
      (addr space len : ℕ) (callback : Option (Callback D)) (ms ns : List (IoMap D))
      → Disjoint ms
      → add_mmio_map addr space len callback ms ≡ some ns
      → Disjoint ns
  unfolding add_mmio_map
  add_mmio_map-Disjoint addr space len callback ms ns h e =
      let r : IoMap D = record {
        low = addr;
        high = right_end addr len;
        space = space;
        callback = callback;
      } in
      elim (Bool-cases (overlaps_any addr (right_end addr len) ms)) [
        | inl bad ↦ ground arith
        | inr free ↦
            let same : ns ≡ ms ++ r ∷ [] = ground arith in
            subst Disjoint (sym same) (Disjoint-append ms r h free)
      ]

  -- In a table where no address is in two regions, the search for an address of one of its
  -- regions finds that region.
  pub fetch_map-Disjoint :
      (ms : List (IoMap D)) (m : IoMap D) (addr : ℕ)
      → Disjoint ms
      → In m ms
      → map_inside m addr ≡ true
      → fetch_map ms addr ≡ some m
  unfolding fetch_map
  fetch_map-Disjoint [] m addr h i inside = elim i [ ]
  fetch_map-Disjoint (n ∷ ns) m addr (first, rest) (inl e) inside =
      let here : map_inside n addr ≡ true = subst (λ x. map_inside x addr ≡ true) e inside in
      rw here (ap some (sym e))
  fetch_map-Disjoint (n ∷ ns) m addr (first, rest) (inr i) inside =
      elim (Bool-cases (map_inside n addr)) [
        | inl both ↦ let out : map_inside m addr ≡ false = first m i addr both in ground arith
        | inr other ↦ rw other (fetch_map-Disjoint ns m addr rest i inside)
      ]

-- When the old end is a multiple of the page size and `new_space` succeeds, the piece starts at
-- the old end, holds the size asked for, and the new end lies behind it, is a multiple of the
-- page size and is below the size of the space.
pub new_space-pages :
    (p size s next : ℕ)
    → p % 4096 ≡ 0
    → new_space p size ≡ some (s, next)
    → (s ≡ p) × (s + size ≤ next) × (next % 4096 ≡ 0) × (next < io_space_max)
unfolding new_space
new_space-pages p size s next h e = ground arith
