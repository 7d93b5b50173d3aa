-- ===== src/Device/Setup.antt =====
-- `init_device` of src/device/device.c and the init functions that it calls in serial.c, timer.c,
-- vga.c, keyboard.c, audio.c, disk.c, sdcard.c, clint.c and syscon.c there: the spaces and the regions
-- of the devices, without port I/O. The addresses and the choice of the devices are the configuration.
-- `none` is a failed assertion. The windows, the files, the alarm and the terminal of the host, and
-- what `syscon_io_handler` prints, are left out.
use gs_emu.Base.{
  ℕ, ◌+◌, ◌*◌, ◌%◌, ◌^◌, bit_or, Bool, ◌&&◌, ◌||◌, ltb, leb, Option, none, some, List, [], ◌==◌,
  if◌then◌else◌,
}
use gs_emu.Memory.Host.{Bytes, put, store}
use gs_emu.Memory.IoMap.{IoMap, IoState, Callback, new_space, add_mmio_map}
use gs_emu.Device.Keyboard.{Keys, i8042_data_io_handler, key_none}
use gs_emu.Device.SdCard.{File, Card, sdcard_io_handler}
use gs_emu.Device.Clock.{rtc_io_handler, init_clint}
use gs_emu.Device.Serial.{Terminal, serial_io_handler}

-- The states of the devices, `last` of `device_update` and `frame_count` of vga.c, and the time of
-- the host.
pub record Devices (F : Type 0) : Type 0 where
  pub terminal : Terminal
  pub keys : Keys
  pub card : Card F
  pub last : ℕ
  pub frame_count : ℕ
  pub us : ℕ

-- `CONFIG_HAS_...` and the addresses.
pub record Config : Type 0 where
  pub has_serial : Bool
  pub has_timer : Bool
  pub has_vga : Bool
  pub has_keyboard : Bool
  pub has_audio : Bool
  pub has_sdcard : Bool
  pub has_clint : Bool
  pub has_syscon : Bool
  pub serial_mmio : ℕ
  pub rtc_mmio : ℕ
  pub vga_ctl_mmio : ℕ
  pub fb_addr : ℕ
  pub i8042_data_mmio : ℕ
  pub audio_ctl_mmio : ℕ
  pub sb_addr : ℕ
  pub sb_size : ℕ
  pub sdcard_ctl_mmio : ℕ
  pub clint_mmio : ℕ
  pub syscon_mmio : ℕ
  pub screen_w : ℕ
  pub screen_h : ℕ

-- `p_space` as an offset, the device space and the table of regions.
pub record Setup (D : Type 0) : Type 0 where
  pub p_space : ℕ
  pub space : Bytes
  pub maps : List (IoMap D)

-- A stage of the setup, and two in turn.
abbrev pub Stage : Type 0 → Type 0
Stage D = Setup D → Option (Setup D)

infixl 5 ◌>=>◌
abbrev pub ◌>=>◌ : {D : Type 0} → Stage D → Stage D → Stage D
(f >=> g) s = elim (f s) [ none ↦ none | some t ↦ g t ]

-- `IFDEF(CONFIG_HAS_..., ...)`.
abbrev pub ifdef : {D : Type 0} → Bool → Stage D → Stage D
ifdef b f s = if b then f s else some s

-- `init_map`, with the bytes of the host before it.
abbrev pub init_map : {D : Type 0} → Bytes → Setup D
init_map f = record { p_space = 0; space = f; maps = [] }

-- `new_space(size)`, a write to it, and `add_mmio_map` with its first address, length and callback.
unfoldable pub add_region :
    {D : Type 0} → ℕ → (ℕ → Bytes → Bytes) → ℕ → ℕ → (ℕ → Option (Callback D)) → Stage D
add_region size write addr len callback s = elim (new_space s.p_space size) [
  | none ↦ none
  | some (base, next) ↦ elim (add_mmio_map addr base len (callback base) s.maps) [
    | none ↦ none
    | some maps ↦ some (record { p_space = next; space = write base s.space; maps = maps })
  ]
]

abbrev pub no_write : ℕ → Bytes → Bytes
no_write base f = f

-- `memset(base, 0, size)`.
abbrev cleared : ℕ → ℕ → Bytes → Bytes
cleared size base f = λ i. if leb base i && ltb i (base + size) then 0 else f i

unfoldable pub syscon_io_handler : {D : Type 0} → ℕ → ℕ → Bool → IoState D → Option (IoState D)
syscon_io_handler offset len is_write io = if offset == 0 || offset == 4 then some io else none

module _ (file : File) where
  abbrev pub D : Type 0
  D = Devices file.F

  unfoldable pub serial_callback : ℕ → Callback D
  serial_callback base offset len is_write (f, d) =
      elim (serial_io_handler base offset len is_write (f, d.terminal)) [
        | none ↦ none
        | some (g, t) ↦ some (g, record d { terminal = t })
      ]

  unfoldable pub rtc_callback : ℕ → Callback D
  rtc_callback base offset len is_write (f, d) = rtc_io_handler base d.us offset len is_write (f, d)

  unfoldable pub i8042_callback : ℕ → Callback D
  i8042_callback base offset len is_write (f, d) =
      elim (i8042_data_io_handler offset is_write d.keys) [
        | none ↦ none
        | some (code, k) ↦ some (store f base 4 code, record d { keys = k })
      ]

  unfoldable pub sdcard_callback : ℕ → Callback D
  sdcard_callback base offset len is_write (f, d) =
      elim (sdcard_io_handler base file offset len is_write (f, d.card)) [
        | none ↦ none
        | some (g, c) ↦ some (g, record d { card = c })
      ]

  unfoldable pub init_serial : Config → Stage D
  init_serial c =
      add_region 8 (λ base f. put f (base + 5) 0x60) c.serial_mmio 0x1000
        (λ base. some (serial_callback base))

  unfoldable pub init_timer : Config → Stage D
  init_timer c = add_region 8 no_write c.rtc_mmio 8 (λ base. some (rtc_callback base))

  abbrev pub screen_size : Config → ℕ
  screen_size c = c.screen_w * c.screen_h * 4 % 2 ^ 32

  -- With CONFIG_VGA_SHOW_SCREEN, its default. The text that a library draws at the end is left out.
  unfoldable pub init_vga : Config → Stage D
  init_vga c =
      add_region 8 (λ base f. store f base 4 (bit_or (c.screen_w * 2 ^ 16) c.screen_h))
        c.vga_ctl_mmio 8 (λ base. none)
      >=> add_region (screen_size c) (cleared (screen_size c)) c.fb_addr (screen_size c)
          (λ base. none)

  unfoldable pub init_i8042 : Config → Stage D
  init_i8042 c =
      add_region 4 (λ base f. store f base 4 key_none) c.i8042_data_mmio 4
        (λ base. some (i8042_callback base))

  -- `audio_io_handler` does nothing; six registers.
  unfoldable pub init_audio : Config → Stage D
  init_audio c =
      add_region 24 no_write c.audio_ctl_mmio 24 (λ base. some (λ offset len is_write io. some io))
      >=> add_region c.sb_size no_write c.sb_addr c.sb_size (λ base. none)

  unfoldable pub init_sdcard : Config → Stage D
  init_sdcard c =
      add_region 0x80 no_write c.sdcard_ctl_mmio 0x80 (λ base. some (sdcard_callback base))

  -- `clint_io_handler` does nothing.
  unfoldable pub init_clint_region : Config → Stage D
  init_clint_region c =
      add_region 8 init_clint c.clint_mmio 0x1_0000
        (λ base. some (λ offset len is_write io. some io))

  unfoldable pub init_syscon : Config → Stage D
  init_syscon c = add_region 8 no_write c.syscon_mmio 0x1000 (λ base. some syscon_io_handler)

  unfoldable pub init_device : Config → Stage D
  init_device c =
      ifdef c.has_serial (init_serial c)
      >=> ifdef c.has_timer (init_timer c)
      >=> ifdef c.has_vga (init_vga c)
      >=> ifdef c.has_keyboard (init_i8042 c)
      >=> ifdef c.has_audio (init_audio c)
      >=> ifdef c.has_sdcard (init_sdcard c)
      >=> ifdef c.has_clint (init_clint_region c)
      >=> ifdef c.has_syscon (init_syscon c)
