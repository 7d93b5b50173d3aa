-- ===== src/Device/Clock.antt =====
-- src/device/timer.c, clint.c, alarm.c, device.c and src/utils/timer.c. The time of the host and the
-- events of the window system are arguments. `none` is a failed assertion.
use gs_emu.Base.{
  ℕ, ◌+◌, ◌-◌, ◌/◌, ◌%◌, ◌^◌, Bool, true, false, ◌&&◌, ◌||◌, not, Option, none, some, List, [], ◌∷◌,
  ◌++◌, ltb, leb, ◌==◌, if◌then◌else◌, length,
}
use gs_emu.Word.{u32, u64}
use gs_emu.Memory.Host.{Bytes, load, store}
use gs_emu.Memory.IoMap.{IoState}
use gs_emu.Riscv.Machine.{RunState, quit}
use gs_emu.Device.Keyboard.{Keys, send_key}

-- `get_time` of src/utils/timer.c: the time since its first call, and `boot_time`. The host's time is
-- asked twice.
unfoldable pub get_time : ℕ → ℕ → ℕ → ℕ × ℕ
get_time first second boot_time =
    let boot = if boot_time == 0 then first else boot_time in (u64 (second + (2 ^ 64 - boot)), boot)

-- `rtc_io_handler`, `us` being the time; `base` is the place of its registers.
unfoldable pub rtc_io_handler : {D : Type 0} → ℕ → ℕ → ℕ → ℕ → Bool → IoState D → Option (IoState D)
rtc_io_handler base us offset len is_write (f, d) =
    if not (offset == 0 || offset == 4)
    then none
    else (if not is_write && offset == 4
        then some (store (store f base 4 (u32 us)) (base + 4) 4 (us / 2 ^ 32), d)
        else some (f, d))

abbrev pub mtimecmplo : ℕ
mtimecmplo = 0x4000

abbrev pub mtimelo : ℕ
mtimelo = 0xbff8

-- `clint_update`, with a reference other than mini-rv32ima.
unfoldable pub clint_update : ℕ → Bytes → Bytes
clint_update base f = store f (base + mtimelo) 8 (u64 (load f (base + mtimelo) 8 + 1))

-- The two writes of `init_clint`.
unfoldable pub init_clint : ℕ → Bytes → Bytes
init_clint base f = store (store f (base + mtimecmplo) 8 (2 ^ 64 - 1)) (base + mtimelo) 8 0

-- `handler` up to `idx`; a handler acts on a state.
unfoldable pub add_alarm_handle : {S : Type 0} → (S → S) → List (S → S) → Option (List (S → S))
add_alarm_handle h hs = if ltb (length hs) 8 then some (hs ++ h ∷ []) else none

unfoldable pub alarm_sig_handler : {S : Type 0} → List (S → S) → S → S
alarm_sig_handler [] s = s
alarm_sig_handler (h ∷ hs) s = alarm_sig_handler hs (h s)

-- `SDL_QUIT`, `SDL_KEYDOWN` and `SDL_KEYUP` with their scan codes, and the others.
pub data Event : Type 0 where
  closed other : Event
  key_down key_up : ℕ → Event

-- What `device_update` changes: its `last`, the frame counter of vga.c, the device space, the key
-- queue and the state of the emulator.
pub record Update : Type 0 where
  pub last : ℕ
  pub frame_count : ℕ
  pub space : Bytes
  pub keys : Keys
  pub state : RunState

-- `vga_update_screen` without its drawing: the counter goes back to 0 after 24.
unfoldable pub vga_update_screen : ℕ → ℕ
vga_update_screen frame_count = if leb (frame_count + 1) 24 then frame_count + 1 else 0

-- 1000000 / TIMER_HZ.
abbrev pub update_interval : ℕ
update_interval = 1000000 / 60

module _ (keymap : ℕ → ℕ) where
  -- The `while` over the events.
  unfoldable pub poll_events : List Event → Update → Option Update
  poll_events [] u = some u
  poll_events (closed ∷ es) u = poll_events es (record u { state = quit })
  poll_events (other ∷ es) u = poll_events es u
  poll_events (key_down k ∷ es) u = elim (send_key keymap u.state (k % 2 ^ 8) true u.keys) [
    | none ↦ none
    | some q ↦ poll_events es (record u { keys = q })
  ]
  poll_events (key_up k ∷ es) u = elim (send_key keymap u.state (k % 2 ^ 8) false u.keys) [
    | none ↦ none
    | some q ↦ poll_events es (record u { keys = q })
  ]

  -- `now - last < 1000000 / TIMER_HZ` in 64 digits.
  abbrev pub too_early : ℕ → ℕ → Bool
  too_early now last = ltb (u64 (now + (2 ^ 64 - last))) update_interval

  unfoldable pub device_update : ℕ → ℕ → List Event → Update → Option Update
  device_update clint_base now events u =
      if too_early now u.last
      then some u
      else poll_events events (record u {
        last = now;
        frame_count = vga_update_screen u.frame_count;
        space = clint_update clint_base u.space;
      })
