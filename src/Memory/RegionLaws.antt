-- ===== src/Memory/RegionLaws.antt =====
-- Accesses to regions (src/device/io/map.c, mmio.c) and to memory (src/memory/paddr.c), and what the
-- callbacks of the regions keep of the devices.
use gs_emu.Base.{
  ℕ, ◌+◌, ◌-◌, ◌≡◌, subst, sym, ap, ◌∙◌, Bool, true, false, Bool-cases, Option, none, some,
  Option-cases, List, [], ◌∷◌, ◌++◌, ◌⊎◌, inl, inr, arith,
}
use gs_emu.Memory.Host.{host_read, host_write}
use gs_emu.Memory.IoMap.{
  IoMap, IoState, Callback, in_pmem, map_inside, fetch_map, invoke_callback, map_read, map_write,
  mmio_read, mmio_write, add_mmio_map, right_end,
}
use gs_emu.Memory.Physical.{Memory, guest_to_host, paddr_read, paddr_write}

-- An access leaves the table of regions, and goes to a region or leaves the devices.
module _ {D : Type 0} where
  paddr_read-cases :
      (addr len v : ℕ) (m t : Memory D)
      → paddr_read addr len m ≡ some (v, t)
      → (t.maps ≡ m.maps)
        × ((m.io ≡ t.io) ⊎ (map_read addr len (fetch_map m.maps addr) m.io ≡ some (v, t.io)))
  unfolding paddr_read mmio_read
  paddr_read-cases addr len v m t e = elim (Bool-cases (in_pmem addr)) [
    | inl inside ↦
        let same : m ≡ t = ground arith in (ap (λ x. x.maps) (sym same), inl (ap (λ x. x.io) same))
    | inr outside ↦ elim (Option-cases (map_read addr len (fetch_map m.maps addr) m.io)) [
      | inl bad ↦ ground arith
      | inr ((w, io), good) ↦
          let value : w ≡ v = ground arith in
          let same : record m { io = io } ≡ t = ground arith in
          let read = ap (λ (x : IoState D). some (v, x)) (ap (λ x. x.io) same) in
          (ap (λ x. x.maps) (sym same), inr (good ∙ ap (λ (x : ℕ). some (x, io)) value ∙ read))
    ]
  ]

  paddr_write-cases :
      (addr len v : ℕ) (m t : Memory D)
      → paddr_write addr len v m ≡ some t
      → (t.maps ≡ m.maps)
        × ((m.io ≡ t.io) ⊎ (map_write addr len v (fetch_map m.maps addr) m.io ≡ some t.io))
  unfolding paddr_write mmio_write
  paddr_write-cases addr len v m t e = elim (Bool-cases (in_pmem addr)) [
    | inl inside ↦ elim (Option-cases (host_write m.pmem (guest_to_host addr) len v)) [
      | inl bad ↦ ground arith
      | inr (f, good) ↦
          let same : record m { pmem = f } ≡ t = ground arith in
          (ap (λ x. x.maps) (sym same), inl (ap (λ x. x.io) same))
    ]
    | inr outside ↦ elim (Option-cases (map_write addr len v (fetch_map m.maps addr) m.io)) [
      | inl bad ↦ ground arith
      | inr (io, good) ↦
          let same : record m { io = io } ≡ t = ground arith in
          (ap (λ x. x.maps) (sym same), inr (good ∙ ap (λ x. some x.io) same))
    ]
  ]

module _ {D : Type 0} (Q : D → Type 0) where
  -- The callback, if there is one, keeps the property when it returns.
  abbrev pub CallbackKeeps : Option (Callback D) → Type 0
  CallbackKeeps none = Unit {0}
  CallbackKeeps (some c) =
      (offset len : ℕ) (is_write : Bool) (s t : IoState D)
      → Q s.1
      → c offset len is_write s ≡ some t
      → Q t.1

  abbrev pub RegionsKeep : List (IoMap D) → Type 0
  RegionsKeep [] = Unit {0}
  RegionsKeep (m ∷ ms) = CallbackKeeps m.callback × RegionsKeep ms

  RegionsKeep-snoc :
      (ms : List (IoMap D)) (m : IoMap D)
      → RegionsKeep ms
      → CallbackKeeps m.callback
      → RegionsKeep (ms ++ m ∷ [])
  RegionsKeep-snoc [] m h k = (k, tt)
  RegionsKeep-snoc (n ∷ ms) m h k = (h.0, RegionsKeep-snoc ms m h.1 k)

  pub add_mmio_map-RegionsKeep :
      (addr space len : ℕ) (callback : Option (Callback D)) (ms ns : List (IoMap D))
      → RegionsKeep ms
      → CallbackKeeps callback
      → add_mmio_map addr space len callback ms ≡ some ns
      → RegionsKeep ns
  unfolding add_mmio_map
  add_mmio_map-RegionsKeep addr space len callback ms ns h k e =
      let r : IoMap D = record {
        low = addr;
        high = right_end addr len;
        space = space;
        callback = callback;
      } in
      let same : ns ≡ ms ++ r ∷ [] = ground arith in
      subst RegionsKeep (sym same) (RegionsKeep-snoc ms r h k)

  invoke_callback-keeps :
      (c : Option (Callback D)) (offset len : ℕ) (is_write : Bool) (s t : IoState D)
      → CallbackKeeps c
      → Q s.1
      → invoke_callback c offset len is_write s ≡ some t
      → Q t.1
  unfolding invoke_callback
  invoke_callback-keeps none offset len is_write s t k q e =
      let same : s ≡ t = cc in subst (λ x. Q x.1) same q
  invoke_callback-keeps (some c) offset len is_write s t k q e = k offset len is_write s t q e

  abbrev RegionKeeps : Option (IoMap D) → Type 0
  RegionKeeps none = Unit {0}
  RegionKeeps (some m) = CallbackKeeps m.callback

  fetch_map-RegionKeeps :
      (ms : List (IoMap D)) (addr : ℕ) → RegionsKeep ms → RegionKeeps (fetch_map ms addr)
  unfolding fetch_map
  fetch_map-RegionKeeps [] addr h = tt
  fetch_map-RegionKeeps (m ∷ ms) addr h = elim (Bool-cases (map_inside m addr)) [
    | inl here ↦ rw here h.0
    | inr other ↦ rw other (fetch_map-RegionKeeps ms addr h.1)
  ]

  map_read-keeps :
      (addr len v : ℕ) (m : Option (IoMap D)) (s t : IoState D)
      → RegionKeeps m
      → Q s.1
      → map_read addr len m s ≡ some (v, t)
      → Q t.1
  unfolding map_read
  map_read-keeps addr len v none s t k q e = cc
  map_read-keeps addr len v (some m) s t k q e =
      elim (Option-cases (invoke_callback m.callback (addr - m.low) len false s)) [
        | inl bad ↦ ground arith
        | inr (u, good) ↦
            let kept = invoke_callback-keeps m.callback (addr - m.low) len false s u k q good in
            elim (Option-cases (host_read u.0 (m.space + (addr - m.low)) len)) [
              | inl bad ↦ ground arith
              | inr (w, found) ↦ let same : u ≡ t = ground arith in subst (λ x. Q x.1) same kept
            ]
      ]

  map_write-keeps :
      (addr len v : ℕ) (m : Option (IoMap D)) (s t : IoState D)
      → RegionKeeps m
      → Q s.1
      → map_write addr len v m s ≡ some t
      → Q t.1
  unfolding map_write
  map_write-keeps addr len v none s t k q e = cc
  map_write-keeps addr len v (some m) s t k q e =
      elim (Option-cases (host_write s.0 (m.space + (addr - m.low)) len v)) [
        | inl bad ↦ ground arith
        | inr (f, good) ↦
            invoke_callback-keeps m.callback (addr - m.low) len true (f, s.1) t k q (ground arith)
      ]

  -- An access to memory leaves the table of regions, and keeps the property of the devices.
  pub paddr_read-keeps :
      (addr len v : ℕ) (m t : Memory D)
      → RegionsKeep m.maps
      → Q m.io.1
      → paddr_read addr len m ≡ some (v, t)
      → (t.maps ≡ m.maps) × Q t.io.1
  paddr_read-keeps addr len v m t h q e =
      let (same, io) = paddr_read-cases addr len v m t e in
      let kept : Q t.io.1 = elim io [
        | inl still ↦ subst (λ x. Q x.1) still q
        | inr read ↦
            map_read-keeps addr len v (fetch_map m.maps addr) m.io t.io
              (fetch_map-RegionKeeps m.maps addr h) q read
      ] in
      (same, kept)

  pub paddr_write-keeps :
      (addr len v : ℕ) (m t : Memory D)
      → RegionsKeep m.maps
      → Q m.io.1
      → paddr_write addr len v m ≡ some t
      → (t.maps ≡ m.maps) × Q t.io.1
  paddr_write-keeps addr len v m t h q e =
      let (same, io) = paddr_write-cases addr len v m t e in
      let kept : Q t.io.1 = elim io [
        | inl still ↦ subst (λ x. Q x.1) still q
        | inr written ↦
            map_write-keeps addr len v (fetch_map m.maps addr) m.io t.io
              (fetch_map-RegionKeeps m.maps addr h) q written
      ] in
      (same, kept)
