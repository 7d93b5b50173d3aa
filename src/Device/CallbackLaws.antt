-- ===== src/Device/CallbackLaws.antt =====
-- What the callbacks of all regions that `init_device` (src/device/device.c) sets up keep of the
-- devices.
use gs_emu.Base.{
  ℕ, ◌≤◌, ◌≡◌, ◌==◌, subst, ◌&&◌, not, Bool-cases, Option, Option-cases, some, inl, inr, arith,
}
use gs_emu.Memory.Host.{Bytes}
use gs_emu.Memory.IoMap.{Callback}
use gs_emu.Memory.RegionLaws.{CallbackKeeps, RegionsKeep, add_mmio_map-RegionsKeep}
use gs_emu.Device.Keyboard.{i8042_data_io_handler}
use gs_emu.Device.KeyboardLaws.{IsQueue, key_dequeue-spec_dequeue}
use gs_emu.Device.Clock.{rtc_io_handler}
use gs_emu.Device.Serial.{serial_io_handler}
use gs_emu.Device.SdCard.{File, sdcard_io_handler}
use gs_emu.Device.Setup.{
  Devices, Config, Setup, D, add_region, serial_callback, rtc_callback, i8042_callback,
  sdcard_callback, syscon_io_handler, init_serial, init_timer, init_vga, init_i8042, init_audio,
  init_sdcard, init_clint_region, init_syscon, init_map, init_device,
}
use gs_emu.Device.SetupLaws.{
  Keeps, chain-Keeps, InitsKeep, init_device-Keeps, add_region-adds, some_inj,
}

-- The key queue is in its array, and the frame counter is at most 24.
pub record IsInRange {F : Type 0} (d : Devices F) : Type 0 where
  pub queue : IsQueue d.keys
  pub frames : d.frame_count ≤ 24

module _ (file : File) (base : ℕ) where
  serial-keeps : CallbackKeeps IsInRange (some (serial_callback file base))
  unfolding serial_callback
  serial-keeps offset len is_write s t q e =
      elim (Option-cases (serial_io_handler base offset len is_write (s.0, s.1.terminal))) [
        | inl bad ↦ ground (arith, bad)
        | inr (r, good) ↦
            subst (λ x. IsInRange x.1) (some_inj (rw (serial_callback, good) at e))
              (record { queue = q.queue; frames = q.frames })
      ]

  rtc-keeps : CallbackKeeps IsInRange (some (rtc_callback file base))
  unfolding rtc_callback rtc_io_handler
  rtc-keeps offset len is_write s t q e =
      let same : s.1 ≡ t.1 = ground arith in subst IsInRange same q

  i8042-keeps : CallbackKeeps IsInRange (some (i8042_callback file base))
  unfolding i8042_callback i8042_data_io_handler
  i8042-keeps offset len is_write s t q e = elim (Bool-cases (not is_write && offset == 0)) [
    | inl read ↦
        let kept = (key_dequeue-spec_dequeue s.1.keys q.queue).0 in
        subst (λ x. IsInRange x.1)
          (some_inj (rw (i8042_callback, i8042_data_io_handler, read) at e))
          (record { queue = kept; frames = q.frames })
    | inr bad ↦ ground (arith, bad)
  ]

  sdcard-keeps : CallbackKeeps IsInRange (some (sdcard_callback file base))
  unfolding sdcard_callback
  sdcard-keeps offset len is_write s t q e =
      elim (Option-cases (sdcard_io_handler base file offset len is_write (s.0, s.1.card))) [
        | inl bad ↦ ground (arith, bad)
        | inr (r, good) ↦
            subst (λ x. IsInRange x.1) (some_inj (rw (sdcard_callback, good) at e))
              (record { queue = q.queue; frames = q.frames })
      ]

  syscon-keeps : CallbackKeeps {D = D file} IsInRange (some syscon_io_handler)
  unfolding syscon_io_handler
  syscon-keeps offset len is_write s t q e =
      let same : s ≡ t = ground arith in subst (λ x. IsInRange x.1) same q

  idle-keeps : CallbackKeeps {D = D file} IsInRange (some (λ offset len is_write io. some io))
  idle-keeps offset len is_write s t q e = subst (λ x. IsInRange x.1) (some_inj e) q

module _ (file : File) where
  -- A region whose callback keeps the devices in range.
  add_region-RegionsKeep :
      (size : ℕ) (write : ℕ → Bytes → Bytes) (addr len : ℕ)
      (callback : ℕ → Option (Callback (D file)))
      → ((b : ℕ) → CallbackKeeps IsInRange (callback b))
      → Keeps (λ s. RegionsKeep IsInRange s.maps) (add_region size write addr len callback)
  add_region-RegionsKeep size write addr len callback k = record {
    keeps = λ s t h e.
        let (b, _, added, _) = add_region-adds size write addr len callback s t e in
        add_mmio_map-RegionsKeep IsInRange addr b len (callback b) s.maps t.maps h (k b) added;
  }

  inits-RegionsKeep : (c : Config) → InitsKeep file c (λ s. RegionsKeep IsInRange s.maps)
  unfolding init_serial init_timer init_vga init_i8042 init_audio init_sdcard init_clint_region
      init_syscon
  inits-RegionsKeep c = record {
    serial = add_region-RegionsKeep 8 _ c.serial_mmio _ _ (serial-keeps file);
    timer = add_region-RegionsKeep 8 _ c.rtc_mmio _ _ (rtc-keeps file);
    vga =
        chain-Keeps _ _ (add_region-RegionsKeep 8 _ c.vga_ctl_mmio _ _ (λ b. tt))
          (add_region-RegionsKeep _ _ c.fb_addr _ _ (λ b. tt));
    keyboard = add_region-RegionsKeep 4 _ c.i8042_data_mmio _ _ (i8042-keeps file);
    audio =
        chain-Keeps _ _ (add_region-RegionsKeep 24 _ c.audio_ctl_mmio _ _ (idle-keeps file))
          (add_region-RegionsKeep _ _ c.sb_addr _ _ (λ b. tt));
    sdcard = add_region-RegionsKeep 0x80 _ c.sdcard_ctl_mmio _ _ (sdcard-keeps file);
    clint = add_region-RegionsKeep 8 _ c.clint_mmio _ _ (idle-keeps file);
    syscon = add_region-RegionsKeep 8 _ c.syscon_mmio _ _ (syscon-keeps file);
  }

  -- However the devices are chosen and configured, the callbacks of the regions that `init_device`
  -- leaves keep the devices in range.
  pub init_device-RegionsKeep :
      (c : Config) (f : Bytes) (s : Setup (D file))
      → init_device file c (init_map f) ≡ some s
      → RegionsKeep IsInRange s.maps
  init_device-RegionsKeep c f s e =
      (init_device-Keeps file c (inits-RegionsKeep c)).keeps (init_map f) s tt e
