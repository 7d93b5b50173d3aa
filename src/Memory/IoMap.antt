-- ===== src/Memory/IoMap.antt =====
-- include/device/map.h, src/device/io/map.c, mmio.c and port-io.c: the spaces and the regions of the
-- devices. `none` is a failed assertion. `paddr_t` has 32 bits.
use gs_emu.Base.{
  ℕ, ◌+◌, ◌-◌, ◌*◌, ◌/◌, Bool, true, false, ◌&&◌, ◌||◌, not, Option, none, some, List, [], ◌∷◌,
  ◌++◌, ltb, leb, if◌then◌else◌, length,
}
use gs_emu.Word.{u32, sub32}
use gs_emu.Memory.Host.{Bytes, host_read, host_write}

-- `CONFIG_MBASE` and `CONFIG_MSIZE`, the defaults of src/memory/Kconfig.
abbrev pub mbase : ℕ
mbase = 0x8000_0000

abbrev pub msize : ℕ
msize = 0x800_0000

-- include/memory/paddr.h `in_pmem`.
unfoldable pub in_pmem : ℕ → Bool
in_pmem addr = ltb (sub32 addr mbase) msize

-- What a callback reads and writes: the device spaces, and the device's own state.
abbrev pub IoState : Type 0 → Type 0
IoState D = Bytes × D

-- `io_callback_t`: offset, length, whether it is a write.
abbrev pub Callback : Type 0 → Type 0
Callback D = ℕ → ℕ → Bool → IoState D → Option (IoState D)

-- `IOMap`. `space` is an offset into `io_space`.
pub record IoMap (D : Type 0) : Type 0 where
  pub low : ℕ
  pub high : ℕ
  pub space : ℕ
  pub callback : Option (Callback D)

abbrev pub io_space_max : ℕ
io_space_max = 2 * 1024 * 1024

-- `new_space(size)`: the new space and the new `p_space`, both as offsets from `io_space`. The size, an
-- `int`, is to be below 2 ^ 31.
unfoldable pub new_space : ℕ → ℕ → Option (ℕ × ℕ)
new_space p_space size =
    let next = p_space + (size + 4095) / 4096 * 4096 in
    if ltb next io_space_max then some (p_space, next) else none

abbrev pub nr_map_max : ℕ
nr_map_max = 16

abbrev pub len_ok : ℕ → Bool
len_ok len = leb 1 len && leb len 8

-- `addr + len - 1` in 32 bits.
abbrev pub right_end : ℕ → ℕ → ℕ
right_end addr len = sub32 (u32 (addr + len)) 1

abbrev pub port_io_space_max : ℕ
port_io_space_max = 65535

module _ {D : Type 0} where
  unfoldable pub map_inside : IoMap D → ℕ → Bool
  map_inside m addr = leb m.low addr && leb addr m.high

  -- `find_mapid_by_addr` and the `NULL` of `fetch_mmio_map`: the first region with the address. Its
  -- call of `difftest_skip_ref`, empty without CONFIG_DIFFTEST, is in Difftest/Run and Difftest/Dut.
  unfoldable pub fetch_map : List (IoMap D) → ℕ → Option (IoMap D)
  fetch_map [] addr = none
  fetch_map (m ∷ ms) addr = if map_inside m addr then some m else fetch_map ms addr

  -- `check_bound`: whether the `Assert` holds.
  abbrev pub check_bound : IoMap D → ℕ → Bool
  check_bound m addr = leb addr m.high && leb m.low addr

  unfoldable pub invoke_callback :
      Option (Callback D) → ℕ → ℕ → Bool → IoState D → Option (IoState D)
  invoke_callback none offset len is_write io = some io
  invoke_callback (some c) offset len is_write io = c offset len is_write io

  unfoldable pub map_read : ℕ → ℕ → Option (IoMap D) → IoState D → Option (ℕ × IoState D)
  map_read addr len none io = none
  map_read addr len (some m) io =
      if len_ok len && check_bound m addr
      then elim (invoke_callback m.callback (addr - m.low) len false io) [
        | none ↦ none
        | some (space, dev) ↦ elim (host_read space (m.space + (addr - m.low)) len) [
          | none ↦ none
          | some v ↦ some (v, (space, dev))
        ]
      ]
      else none

  unfoldable pub map_write : ℕ → ℕ → ℕ → Option (IoMap D) → IoState D → Option (IoState D)
  map_write addr len data' none io = none
  map_write addr len data' (some m) io =
      if len_ok len && check_bound m addr
      then elim (host_write io.0 (m.space + (addr - m.low)) len data') [
        | none ↦ none
        | some space ↦ invoke_callback m.callback (addr - m.low) len true (space, io.1)
      ]
      else none

  -- The tests of `add_mmio_map` that end in `report_mmio_overlap`.
  abbrev pub overlaps : ℕ → ℕ → IoMap D → Bool
  overlaps left right m = leb left m.high && leb m.low right

  abbrev pub overlaps_any : ℕ → ℕ → List (IoMap D) → Bool
  overlaps_any left right [] = false
  overlaps_any left right (m ∷ ms) = overlaps left right m || overlaps_any left right ms

  unfoldable pub add_mmio_map :
      ℕ → ℕ → ℕ → Option (Callback D) → List (IoMap D) → Option (List (IoMap D))
  add_mmio_map addr space len callback maps =
      let right = right_end addr len in
      if ltb (length maps) nr_map_max
        && not ((in_pmem addr || in_pmem right) || overlaps_any addr right maps)
      then some
          (maps ++ record { low = addr; high = right; space = space; callback = callback } ∷ [])
      else none

  unfoldable pub mmio_read : ℕ → ℕ → List (IoMap D) → IoState D → Option (ℕ × IoState D)
  mmio_read addr len maps io = map_read addr len (fetch_map maps addr) io

  unfoldable pub mmio_write : ℕ → ℕ → ℕ → List (IoMap D) → IoState D → Option (IoState D)
  mmio_write addr len data' maps io = map_write addr len data' (fetch_map maps addr) io

  -- port-io.c. `ioaddr_t` has 16 bits, so these sums do not wrap.
  unfoldable pub add_pio_map :
      ℕ → ℕ → ℕ → Option (Callback D) → List (IoMap D) → Option (List (IoMap D))
  add_pio_map addr space len callback maps =
      if ltb (length maps) nr_map_max && leb (u32 (addr + len)) port_io_space_max
      then some (
          maps
          ++ record { low = addr; high = right_end addr len; space = space; callback = callback }
            ∷ [])
      else none

  unfoldable pub pio_read : ℕ → ℕ → List (IoMap D) → IoState D → Option (ℕ × IoState D)
  pio_read addr len maps io =
      if ltb (addr + len - 1) port_io_space_max
      then map_read addr len (fetch_map maps addr) io
      else none

  unfoldable pub pio_write : ℕ → ℕ → ℕ → List (IoMap D) → IoState D → Option (IoState D)
  pio_write addr len data' maps io =
      if ltb (addr + len - 1) port_io_space_max
      then map_write addr len data' (fetch_map maps addr) io
      else none
