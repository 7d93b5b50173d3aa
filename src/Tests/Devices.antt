-- ===== src/Tests/Devices.antt =====
-- The SD card, the clocks and the serial port at concrete inputs.
use gs_emu.Base.{
  ℕ, ◌+◌, ◌≡◌, refl, true, false, Option, none, some, List, [], ◌∷◌, ◌==◌, if◌then◌else◌, arith,
}
use gs_emu.Memory.Host.{Bytes, load}
use gs_emu.Memory.IoMap.{IoState, new_space, add_mmio_map, in_pmem}
use gs_emu.Riscv.Machine.{running}
use gs_emu.Device.Keyboard.{Keys}
use gs_emu.Device.SdCard.{File, Card}
use gs_emu.Device.FileLaws.{IsFile}
use gs_emu.Device.SdCardLaws.{card, write_read, write_read-same}
use gs_emu.Device.Clock.{
  Event, other, Update, poll_events, device_update, clint_update, vga_update_screen,
}
use gs_emu.Device.ClockLaws.{updates, Paced, updates-Paced}
use gs_emu.Device.SerialLaws.{terminal, drain, drain-waiting}
use gs_emu.Device.Setup.{
  Config, Setup, D, init_map, init_device, init_serial, init_timer, init_vga, init_i8042,
  init_audio, init_clint_region, init_syscon, add_region,
}
use gs_emu.Device.SetupLaws.{IsSetup, init_device-IsSetup}

abbrev zeros : Bytes
zeros a = 0

-- A file of words by their places, with its own place.
abbrev Words : Type 0
Words = ℕ × (ℕ → Option ℕ)

abbrev sparse : File
sparse = record {
  F = Words;
  fseek = λ p h. (p, h.1);
  fread = λ h. (h.1 h.0, (h.0 + 4, h.1));
  fwrite = λ w h. (h.0 + 4, λ q. if q == h.0 then some w else h.1 q);
}

sparse-IsFile : IsFile sparse
sparse-IsFile = record {
  position = λ h. h.0;
  word_at = λ h q. h.1 q;
  fseek_position = λ p h. refl;
  fseek_word = λ p h q. refl;
  fwrite_position = λ w h. refl;
  fwrite_word = λ w h. ground arith;
  fwrite_before = λ w h q l. ground arith;
  fread_word = λ h w e. e;
  fread_position = λ h w e. refl;
  fread_same = λ h q. refl;
}

abbrev empty : Words
empty = (0, λ q. none)

write_read-same_example :
    (io : IoState (Card Words)) × (write_read sparse 4096 0xa300_0000 3
        (17 ∷ (0xffff_ffff ∷ []))
        (zeros, card sparse 4096 0xa300_0000 false empty 0 0 0)
      ≡ some (17 ∷ (0xffff_ffff ∷ []), io))
write_read-same_example =
    write_read-same sparse sparse-IsFile 4096 0xa300_0000 3 (17 ∷ (0xffff_ffff ∷ [])) zeros false
      empty 0 0 0 (omega arith) (omega arith, (omega arith, tt))

abbrev no_keys : Keys
no_keys = record { key_queue = λ i. 0; key_f = 0; key_r = 0 }

abbrev idle : Update
idle = record { last = 0; frame_count = 0; space = zeros; keys = no_keys; state = running }

-- At 10 ms nothing is due, at 20 ms an update is.
abbrev calls : List (ℕ × List Event)
calls = (10000, []) ∷ ((20000, other ∷ []) ∷ [])

abbrev updated : Update
updated = record idle { last = 20000; frame_count = 1; space = clint_update 8192 zeros }

runs_calls : updates (λ k. k) 8192 calls idle ≡ some updated
unfolding device_update poll_events vga_update_screen
runs_calls = refl

updates-Paced_example : Paced (λ k. k) 8192 idle updated 20000
unfolding load
updates-Paced_example =
    updates-Paced (λ k. k) 8192 calls idle updated 20000 (omega arith, (omega arith, omega arith))
      (omega arith) (omega arith) runs_calls

drain-waiting_example :
    (g : Bytes) × (drain 8192 0xa000_03f8 5
        (zeros, terminal 8192 0xa000_03f8 (b'h' ∷ (b'i' ∷ [])) [])
      ≡ some (b'h' ∷ (b'i' ∷ []), (g, terminal 8192 0xa000_03f8 [] [])))
drain-waiting_example =
    drain-waiting 8192 0xa000_03f8 (b'h' ∷ (b'i' ∷ [])) [] 5 zeros (omega arith, (omega arith, tt))
      (omega arith)

-- The default configuration, with a screen of 400 by 300.
abbrev defaults : Config
defaults = record {
  has_serial = true;
  has_timer = true;
  has_vga = true;
  has_keyboard = true;
  has_audio = true;
  has_sdcard = false;
  has_clint = true;
  has_syscon = true;
  serial_mmio = 0xa000_03f8;
  rtc_mmio = 0xa000_0048;
  vga_ctl_mmio = 0xa000_0100;
  fb_addr = 0xa100_0000;
  i8042_data_mmio = 0xa000_0060;
  audio_ctl_mmio = 0xa000_0200;
  sb_addr = 0xa120_0000;
  sb_size = 0x1_0000;
  sdcard_ctl_mmio = 0xa300_0000;
  clint_mmio = 0x1100_0000;
  syscon_mmio = 0x1110_0000;
  screen_w = 400;
  screen_h = 300;
}

abbrev set_up : Option (Setup (D sparse)) → Setup (D sparse)
set_up none = init_map zeros
set_up (some s) = s

defaults_run :
    init_device sparse defaults (init_map zeros)
    ≡ some (set_up (init_device sparse defaults (init_map zeros)))
unfolding init_device init_serial init_timer init_vga init_i8042 init_audio init_clint_region
    init_syscon add_region new_space add_mmio_map in_pmem
defaults_run = refl

init_device-IsSetup_example : IsSetup (set_up (init_device sparse defaults (init_map zeros)))
init_device-IsSetup_example =
    init_device-IsSetup sparse defaults zeros
      (set_up (init_device sparse defaults (init_map zeros))) defaults_run
