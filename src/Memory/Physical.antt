-- ===== src/Memory/Physical.antt =====
-- src/memory/paddr.c and vaddr.c, with `CONFIG_DEVICE`.
use gs_emu.Base.{ℕ, ◌+◌, ◌%◌, ◌^◌, Bool, Option, none, some, List, leb, if◌then◌else◌}
use gs_emu.Word.{sub32}
use gs_emu.Memory.Host.{Bytes, host_read, host_write}
use gs_emu.Memory.IoMap.{IoMap, IoState, in_pmem, mbase, msize, mmio_read, mmio_write}

pub record Memory (D : Type 0) : Type 0 where
  pub pmem : Bytes
  pub maps : List (IoMap D)
  pub io : IoState D

-- `guest_to_host`, as an index into `pmem`, and back.
unfoldable pub guest_to_host : ℕ → ℕ
guest_to_host paddr = sub32 paddr mbase

unfoldable pub host_to_guest : ℕ → ℕ
host_to_guest haddr = (haddr + mbase) % 2 ^ 32

-- `in_pmem` looks at the first byte only. An access that runs over the end of the array `pmem` is
-- undefined in C, here `none`.
abbrev pub fits_pmem : ℕ → ℕ → Bool
fits_pmem addr len = leb (guest_to_host addr + len) msize

module _ {D : Type 0} where
  unfoldable pub paddr_read : ℕ → ℕ → Memory D → Option (ℕ × Memory D)
  paddr_read addr len m =
      if in_pmem addr
      then (if fits_pmem addr len
          then elim (host_read m.pmem (guest_to_host addr) len) [
            | none ↦ none
            | some v ↦ some (v, m)
          ]
          else none)
      else elim (mmio_read addr len m.maps m.io) [
        | none ↦ none
        | some (v, io) ↦ some (v, record m { io = io })
      ]

  unfoldable pub paddr_write : ℕ → ℕ → ℕ → Memory D → Option (Memory D)
  paddr_write addr len data' m =
      if in_pmem addr
      then (if fits_pmem addr len
          then elim (host_write m.pmem (guest_to_host addr) len data') [
            | none ↦ none
            | some f ↦ some (record m { pmem = f })
          ]
          else none)
      else elim (mmio_write addr len data' m.maps m.io) [
        | none ↦ none
        | some io ↦ some (record m { io = io })
      ]
