-- ===== src/Device/SetupLaws.antt =====
-- The table of regions that `init_device` (src/device/device.c) leaves.
use gs_emu.Base.{
  ℕ, ◌%◌, ◌<◌, ◌≡◌, subst, sym, ap, ◌∙◌, Bool, true, false, Option, some, arith, Option-cases, inl,
  inr,
}
use gs_emu.Memory.Host.{Bytes}
use gs_emu.Memory.IoMap.{Callback, new_space, add_mmio_map, io_space_max}
use gs_emu.Memory.IoMapLaws.{Disjoint, add_mmio_map-Disjoint, new_space-pages}
use gs_emu.Device.SdCard.{File}
use gs_emu.Device.Setup.{
  Config, Setup, Stage, ◌>=>◌, ifdef, init_map, add_region, D, init_serial, init_timer, init_vga,
  init_i8042, init_audio, init_sdcard, init_clint_region, init_syscon, init_device,
}

-- No address is in two regions, and the spaces given out are whole pages of the device space.
pub record IsSetup {D : Type 0} (s : Setup D) : Type 0 where
  pub disjoint : Disjoint s.maps
  pub pages : s.p_space % 4096 ≡ 0
  pub below : s.p_space < io_space_max

pub some_inj : {A : Type 0} {u v : A} → some u ≡ some v → u ≡ v
some_inj h = cc

-- A stage of the setup that keeps a property of the regions and the spaces, when it succeeds.
pub record Keeps {D : Type 0} (P : Setup D → Type 0) (f : Stage D) : Type 0 where
  pub keeps : (s t : Setup D) → P s → f s ≡ some t → P t

module _ {D : Type 0} {P : Setup D → Type 0} where
  ifdef-Keeps : (b : Bool) (f : Stage D) → Keeps P f → Keeps P (ifdef b f)
  ifdef-Keeps true f k = record { keeps = λ s t h e. k.keeps s t h e }
  ifdef-Keeps false f k = record { keeps = λ s t h e. subst P (some_inj e) h }

  pub chain-Keeps : (f g : Stage D) → Keeps P f → Keeps P g → Keeps P (f >=> g)
  chain-Keeps f g k l = record {
    keeps = λ s t h e. elim (Option-cases (f s)) [
      | inl bad ↦ ground (arith, bad)
      | inr (u, good) ↦ l.keeps u t (k.keeps s u h good) (rw (◌>=>◌, good) at e)
    ];
  }

-- The init functions of the devices keep the property.
pub record InitsKeep (file : File) (c : Config) (P : Setup (D file) → Type 0) : Type 0 where
  pub serial : Keeps P (init_serial file c)
  pub timer : Keeps P (init_timer file c)
  pub vga : Keeps P (init_vga file c)
  pub keyboard : Keeps P (init_i8042 file c)
  pub audio : Keeps P (init_audio file c)
  pub sdcard : Keeps P (init_sdcard file c)
  pub clint : Keeps P (init_clint_region file c)
  pub syscon : Keeps P (init_syscon file c)

pub init_device-Keeps :
    (file : File) (c : Config) {P : Setup (D file) → Type 0}
    → InitsKeep file c P
    → Keeps P (init_device file c)
unfolding init_device
init_device-Keeps file c k =
    let k1 = ifdef-Keeps c.has_serial _ k.serial in
    let k2 = chain-Keeps _ _ k1 (ifdef-Keeps c.has_timer _ k.timer) in
    let k3 = chain-Keeps _ _ k2 (ifdef-Keeps c.has_vga _ k.vga) in
    let k4 = chain-Keeps _ _ k3 (ifdef-Keeps c.has_keyboard _ k.keyboard) in
    let k5 = chain-Keeps _ _ k4 (ifdef-Keeps c.has_audio _ k.audio) in
    let k6 = chain-Keeps _ _ k5 (ifdef-Keeps c.has_sdcard _ k.sdcard) in
    let k7 = chain-Keeps _ _ k6 (ifdef-Keeps c.has_clint _ k.clint) in
    chain-Keeps _ _ k7 (ifdef-Keeps c.has_syscon _ k.syscon)

-- What `add_region` appends.
pub add_region-adds :
    {D : Type 0} (size : ℕ) (write : ℕ → Bytes → Bytes) (addr len : ℕ)
    (callback : ℕ → Option (Callback D)) (s t : Setup D)
    → add_region size write addr len callback s ≡ some t
    → (base : ℕ) × (new_space s.p_space size ≡ some (base, t.p_space))
      × (add_mmio_map addr base len (callback base) s.maps ≡ some t.maps)
      × (t.space ≡ write base s.space)
unfolding add_region
add_region-adds size write addr len callback s t e =
    elim (Option-cases (new_space s.p_space size)) [
      | inl bad ↦ ground (arith, bad)
      | inr ((base, next), good) ↦
          elim (Option-cases (add_mmio_map addr base len (callback base) s.maps)) [
            | inl bad ↦ ground (arith, good, bad)
            | inr (maps, added) ↦
                let same = some_inj (rw (add_region, good, added) at e) in
                (
                  base,
                  good ∙ ap (λ x. some (base, x)) (ap (λ x. x.p_space) same),
                  added ∙ ap (λ x. some x.maps) same,
                  ap (λ x. x.space) (sym same),
                )
          ]
    ]

add_region-IsSetup :
    {D : Type 0} (size : ℕ) (write : ℕ → Bytes → Bytes) (addr len : ℕ)
    (callback : ℕ → Option (Callback D))
    → Keeps IsSetup (add_region size write addr len callback)
add_region-IsSetup size write addr len callback = record {
  keeps = λ s t h e.
      let (base, good, added, _) = add_region-adds size write addr len callback s t e in
      let n = new_space-pages s.p_space size base t.p_space h.pages good in
      record {
        disjoint =
            add_mmio_map-Disjoint addr base len (callback base) s.maps t.maps h.disjoint added;
        pages = n.2;
        below = n.3;
      };
}

inits-IsSetup : (file : File) (c : Config) → InitsKeep file c IsSetup
unfolding init_serial init_timer init_vga init_i8042 init_audio init_sdcard init_clint_region
    init_syscon
inits-IsSetup file c = record {
  serial = add_region-IsSetup 8 _ c.serial_mmio _ _;
  timer = add_region-IsSetup 8 _ c.rtc_mmio _ _;
  vga =
      chain-Keeps _ _ (add_region-IsSetup 8 _ c.vga_ctl_mmio _ _)
        (add_region-IsSetup _ _ c.fb_addr _ _);
  keyboard = add_region-IsSetup 4 _ c.i8042_data_mmio _ _;
  audio =
      chain-Keeps _ _ (add_region-IsSetup 24 _ c.audio_ctl_mmio _ _)
        (add_region-IsSetup _ _ c.sb_addr _ _);
  sdcard = add_region-IsSetup 0x80 _ c.sdcard_ctl_mmio _ _;
  clint = add_region-IsSetup 8 _ c.clint_mmio _ _;
  syscon = add_region-IsSetup 8 _ c.syscon_mmio _ _;
}

module _ (file : File) (c : Config) where
  -- However the devices are chosen and wherever their regions are configured, when `init_device`
  -- succeeds no address is in two regions, and the end of the spaces given out is a multiple of
  -- the page size and below the size of the device space.
  pub init_device-IsSetup :
      (f : Bytes) (s : Setup (D file)) → init_device file c (init_map f) ≡ some s → IsSetup s
  init_device-IsSetup f s e =
      (init_device-Keeps file c (inits-IsSetup file c)).keeps (init_map f) s
        (record { disjoint = tt; pages = omega arith; below = omega arith }) e
