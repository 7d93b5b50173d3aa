-- ===== src/Memory/PhysicalLaws.antt =====
-- Reads and writes of physical memory (src/memory/paddr.c), and the memory as the processor's bus.
use gs_emu.Base.{
  ℕ, ◌+◌, ◌-◌, ◌^◌, ◌<◌, ◌≤◌, ◌≡◌, ◌⊎◌, inl, inr, refl, sym, ap, ◌∙◌, true, false, Option, none,
  some, Bool-cases, Option-cases, arith,
}
use gs_emu.Bus.{Bus}
use gs_emu.Memory.Host.{Bytes, host_read, host_write}
use gs_emu.Memory.HostLaws.{
  truncated, written, host_read-host_write, host_read-elsewhere, host_read_lt,
}
use gs_emu.Memory.IoMap.{IoMap, IoState, in_pmem, fetch_map, map_read, invoke_callback, mmio_read}
use gs_emu.Memory.Physical.{Memory, guest_to_host, fits_pmem, paddr_read, paddr_write}

apart-guest_to_host :
    (a n b k : ℕ)
    → a < 2 ^ 32
    → b < 2 ^ 32
    → in_pmem a ≡ true
    → in_pmem b ≡ true
    → (b + n ≤ a) ⊎ (a + k ≤ b)
    → (guest_to_host b + n ≤ guest_to_host a) ⊎ (guest_to_host a + k ≤ guest_to_host b)
unfolding in_pmem guest_to_host
apart-guest_to_host a n b k sa sb ha hb h = ground arith

module _ {D : Type 0} where
  -- A write to physical memory that returns wrote to the array.
  write-inside :
      (m t : Memory D) (addr len v : ℕ)
      → in_pmem addr ≡ true
      → paddr_write addr len v m ≡ some t
      → (f : Bytes) × (fits_pmem addr len ≡ true)
        × (host_write m.pmem (guest_to_host addr) len v ≡ some f)
        × (t ≡ record m { pmem = f })
  unfolding paddr_write
  write-inside m t addr len v h e = elim (Bool-cases (fits_pmem addr len)) [
    | inr bad ↦ ground arith
    | inl fits ↦ elim (Option-cases (host_write m.pmem (guest_to_host addr) len v)) [
      | inl bad ↦ ground arith
      | inr (f, good) ↦ (f, fits, good, ground arith)
    ]
  ]

  read-inside :
      (m : Memory D) (addr len : ℕ)
      → in_pmem addr ≡ true
      → fits_pmem addr len ≡ true
      → paddr_read addr len m
        ≡ elim (host_read m.pmem (guest_to_host addr) len) [ none ↦ none | some v ↦ some (v, m) ]
  unfolding paddr_read
  read-inside m addr len h fits = ground arith

  -- When a write to an address of physical memory succeeds, a read of the same length at that
  -- address succeeds, changes nothing and gives the value cut to one or two bytes for the
  -- lengths 1 and 2, and to four bytes for the lengths 4 and 8.
  pub paddr_read-paddr_write :
      (m t : Memory D) (addr len v : ℕ)
      → in_pmem addr ≡ true
      → paddr_write addr len v m ≡ some t
      → paddr_read addr len t ≡ some (truncated len v, t)
  paddr_read-paddr_write m t addr len v h e =
      let (f, fits, good, same) = write-inside m t addr len v h e in
      rw
        (
          read-inside t addr len h fits,
          same,
          host_read-host_write m.pmem f (guest_to_host addr) len v good,
        )
        (ap (λ x. some (truncated len v, x)) same)

  -- The value that a read gives, `none` for a failed one.
  abbrev pub value : Option (ℕ × Memory D) → Option ℕ
  value none = none
  value (some (v, m)) = some v

  value-read :
      (m : Memory D) (addr len : ℕ)
      → in_pmem addr ≡ true
      → fits_pmem addr len ≡ true
      → value (paddr_read addr len m) ≡ host_read m.pmem (guest_to_host addr) len
  value-read m addr len h fits =
      rw (read-inside m addr len h fits)
        (elim (Option-cases (host_read m.pmem (guest_to_host addr) len)) [
          | inl bad ↦ rw bad refl
          | inr (v, good) ↦ rw good refl
        ])

  value-none :
      (m : Memory D) (addr len : ℕ)
      → in_pmem addr ≡ true
      → fits_pmem addr len ≡ false
      → value (paddr_read addr len m) ≡ none
  unfolding paddr_read
  value-none m addr len h fits = ground arith

  -- A write to physical memory that succeeds does not change what a read of other bytes of
  -- physical memory gives, be it a value or a failure: the bytes read end before the address
  -- written, or begin behind the bytes written. Both addresses are words.
  pub paddr_read-elsewhere :
      (m t : Memory D) (addr len v b n : ℕ)
      → addr < 2 ^ 32
      → b < 2 ^ 32
      → in_pmem addr ≡ true
      → in_pmem b ≡ true
      → (b + n ≤ addr) ⊎ (addr + written len ≤ b)
      → paddr_write addr len v m ≡ some t
      → value (paddr_read b n t) ≡ value (paddr_read b n m)
  paddr_read-elsewhere m t addr len v b n sa sb ha hb apart e =
      let (f, _, good, same) = write-inside m t addr len v ha e in
      let away =
        host_read-elsewhere m.pmem f (guest_to_host addr) len v (guest_to_host b) n good
          (apart-guest_to_host addr n b (written len) sa sb ha hb apart) in
      elim (Bool-cases (fits_pmem b n)) [
        | inr bad ↦ value-none t b n hb bad ∙ sym (value-none m b n hb bad)
        | inl fits ↦
            value-read t b n hb fits
            ∙ ap (λ x. host_read x.pmem (guest_to_host b) n) same
            ∙ away
            ∙ sym (value-read m b n hb fits)
      ]

  map_read_lt :
      (a n v : ℕ) (map' : Option (IoMap D)) (s t : IoState D)
      → map_read a n map' s ≡ some (v, t)
      → v < 2 ^ 32
  unfolding map_read
  map_read_lt a n v none s t h = ground arith
  map_read_lt a n v (some r) s t h =
      elim (Option-cases (invoke_callback r.callback (a - r.low) n false s)) [
        | inl bad ↦ ground arith
        | inr (u, good) ↦ elim (Option-cases (host_read u.0 (r.space + (a - r.low)) n)) [
          | inl bad ↦ ground arith
          | inr (w, found) ↦
              let small = host_read_lt u.0 (r.space + (a - r.low)) n w found in ground arith
        ]
      ]

  pub paddr_read_lt : (a n v : ℕ) (s t : Memory D) → paddr_read a n s ≡ some (v, t) → v < 2 ^ 32
  unfolding paddr_read mmio_read
  paddr_read_lt a n v s t h = elim (Option-cases (host_read s.pmem (guest_to_host a) n)) [
    | inl bad ↦ elim (Option-cases (map_read a n (fetch_map s.maps a) s.io)) [
      | inl bad' ↦ ground arith
      | inr ((w, io), found) ↦
          let small = map_read_lt a n w (fetch_map s.maps a) s.io io found in ground arith
    ]
    | inr (x, ok) ↦
        let small' = host_read_lt s.pmem (guest_to_host a) n x ok in
        elim (Option-cases (map_read a n (fetch_map s.maps a) s.io)) [
          | inl bad' ↦ ground arith
          | inr ((w, io), found) ↦
              let small = map_read_lt a n w (fetch_map s.maps a) s.io io found in ground arith
        ]
  ]

-- The memory as the processor's bus.
abbrev pub memory_bus : Type 0 → Bus
memory_bus D = record {
  State = Memory D;
  read = paddr_read;
  write = paddr_write;
  read_lt = paddr_read_lt;
}
