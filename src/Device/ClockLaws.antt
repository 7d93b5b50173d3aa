-- ===== src/Device/ClockLaws.antt =====
-- The clocks of src/device: a consistent reading of the time, and the pace of `mtime`.
use gs_emu.Base.{
  ℕ, suc, ◌+◌, ◌-◌, ◌*◌, ◌/◌, ◌%◌, ◌^◌, ◌<◌, ◌≤◌, ◌≡◌, refl, ap, ◌∙◌, inl, inr, true, false, Option,
  none, some, List, [], ◌∷◌, leb, arith, Bool-cases, Option-cases,
}
use gs_emu.Word.{u32, u64}
use gs_emu.Memory.Host.{Bytes, load, store, host_read}
use gs_emu.Memory.HostLaws.{load-store_word, load-store_apart, load-store_double}
use gs_emu.Memory.IoMap.{IoMap, IoState, invoke_callback, map_read}
use gs_emu.Device.Keyboard.{send_key}
use gs_emu.Device.Clock.{
  rtc_io_handler, clint_update, Event, closed, other, key_down, key_up, Update, poll_events,
  too_early, device_update, update_interval, mtimelo, vga_update_screen,
}

module _ {D : Type 0} (base low : ℕ) where
  -- The region of the clock while the time is `us`.
  abbrev pub rtc : ℕ → IoMap D
  rtc us = record {
    low = low;
    high = low + 7;
    space = base;
    callback = some (rtc_io_handler base us);
  }

  -- The high half of the time at `us`, then the low half at `later`.
  abbrev pub read_time : ℕ → ℕ → IoState D → Option (ℕ × IoState D)
  read_time us later io = elim (map_read (low + 4) 4 (some (rtc us)) io) [
    | none ↦ none
    | some (hi, io') ↦ elim (map_read (low + 0) 4 (some (rtc later)) io') [
      | none ↦ none
      | some (lo, io'') ↦ some (hi * 2 ^ 32 + lo, io'')
    ]
  ]

  region_read :
      (us o : ℕ) (f g : Bytes) (c d : D)
      → o < 8
      → rtc_io_handler base us o 4 false (f, c) ≡ some (g, d)
      → map_read (low + o) 4 (some (rtc us)) (f, c) ≡ some (load g (base + o) 4, (g, d))
  unfolding map_read invoke_callback host_read
  region_read us o f g c d h e =
      let below : leb (low + o) (low + 7) ≡ true = ground arith in
      let above : leb low (low + o) ≡ true = ground arith in
      let place : low + o - low ≡ o = omega arith in rw (below, above, place, e) (rw place refl)

  -- A time of 64 digits is read whole, high half first, even if time passes between the two reads.
  pub read_time-us :
      (us later : ℕ) (f : Bytes) (d : D)
      → us < 2 ^ 64
      → (io : IoState D) × (read_time us later (f, d) ≡ some (us, io))
  unfolding rtc_io_handler
  read_time-us us later f d h =
      let g : Bytes = store (store f base 4 (u32 us)) (base + 4) 4 (us / 2 ^ 32) in
      let hi : load g (base + 4) 4 ≡ us / 2 ^ 32 =
        load-store_word (store f base 4 (u32 us)) (base + 4) (us / 2 ^ 32) (omega arith) in
      let start : base + 0 ≡ base = omega arith in
      let lo : load g (base + 0) 4 ≡ us % 2 ^ 32 =
        load-store_apart (store f base 4 (u32 us)) (base + 4) (base + 0) (us / 2 ^ 32)
          (inl (omega arith))
        ∙ rw start (load-store_word f base (u32 us) (omega arith)) in
      let whole : us / 2 ^ 32 * 2 ^ 32 + us % 2 ^ 32 ≡ us = omega arith in
      let first : rtc_io_handler base us 4 4 false (f, d) ≡ some (g, d) = refl in
      let second : rtc_io_handler base later 0 4 false (g, d) ≡ some (g, d) = refl in
      (
        (g, d),
        rw
            (
              read_time,
              region_read us 4 f g d d (omega arith) first,
              region_read later 0 g g d d (omega arith) second,
              hi,
              lo,
            )
            (ap (λ x. some (x, (g, d))) whole),
      )

-- No event touches the clock.
poll_events-clock :
    (keymap : ℕ → ℕ) (es : List Event) (u v : Update)
    → poll_events keymap es u ≡ some v
    → (v.space ≡ u.space) × (v.last ≡ u.last)
unfolding poll_events
poll_events-clock keymap [] u v e = ground arith
poll_events-clock keymap (closed ∷ es) u v e = poll_events-clock keymap es _ v e
poll_events-clock keymap (other ∷ es) u v e = poll_events-clock keymap es u v e
poll_events-clock keymap (key_down k ∷ es) u v e =
    elim (Option-cases (send_key keymap u.state (k % 2 ^ 8) true u.keys)) [
      | inl bad ↦ ground (arith, bad)
      | inr (q, good) ↦
          poll_events-clock keymap es (record u { keys = q }) v (rw (poll_events, good) at e)
    ]
poll_events-clock keymap (key_up k ∷ es) u v e =
    elim (Option-cases (send_key keymap u.state (k % 2 ^ 8) false u.keys)) [
      | inl bad ↦ ground (arith, bad)
      | inr (q, good) ↦
          poll_events-clock keymap es (record u { keys = q }) v (rw (poll_events, good) at e)
    ]

module _ (keymap : ℕ → ℕ) (base : ℕ) where
  -- The calls of a run: the time and the events of each.
  abbrev pub updates : List (ℕ × List Event) → Update → Option Update
  updates [] u = some u
  updates ((now, events) ∷ rest) u = elim (device_update keymap base now events u) [
    | none ↦ none
    | some v ↦ updates rest v
  ]

  -- The times do not go back, and end by `top`.
  abbrev pub Within : ℕ → ℕ → List (ℕ × List Event) → Type 0
  Within from top [] = from ≤ top
  Within from top ((now, events) ∷ rest) = (from ≤ now) × Within now top rest

  abbrev pub mtime : Update → ℕ
  mtime u = load u.space (base + mtimelo) 8

  -- `ticks` steps of `mtime`, each at least an interval after the one before.
  pub record Paced (u v : Update) (top : ℕ) : Type 0 where
    pub ticks : ℕ
    pub counted : mtime v ≡ (mtime u + ticks) % 2 ^ 64
    pub paced : ticks * update_interval + u.last ≤ top

  Within-before :
      (from now top : ℕ) (rest : List (ℕ × List Event))
      → from ≤ now
      → Within now top rest
      → Within from top rest
  Within-before from now top [] h w = omega arith
  Within-before from now top ((t, es) ∷ rest) h w = (omega (arith, w.0), w.1)

  Within-end : (from top : ℕ) (rest : List (ℕ × List Event)) → Within from top rest → from ≤ top
  Within-end from top [] w = w
  Within-end from top ((t, es) ∷ rest) w =
      let later = Within-end t top rest w.1 in omega (arith, w.0)

  -- The state of an update that is due, before the events.
  abbrev due_update : ℕ → Update → Update
  due_update now u = record u {
    last = now;
    frame_count = vga_update_screen u.frame_count;
    space = clint_update base u.space;
  }

  -- In a run of `device_update` at times that do not go back, the first not before the last
  -- update, `mtime` grows by a number of ticks, modulo 2 ^ 64, and the ticks, each taken as a
  -- 60th of a second, together take no more than the time from the last update to the end, when
  -- the run succeeds, the end has 64 digits and `mtime` had at the start.
  pub updates-Paced :
      (calls : List (ℕ × List Event)) (u v : Update) (top : ℕ)
      → Within u.last top calls
      → top < 2 ^ 64
      → mtime u < 2 ^ 64
      → updates calls u ≡ some v
      → Paced u v top
  unfolding device_update clint_update
  updates-Paced [] u v top w t m e =
      let same : u ≡ v = ground arith in
      rw (← same) (record { ticks = 0; counted = omega arith; paced = omega arith })
  updates-Paced ((now, events) ∷ rest) u v top w t m e =
      elim (Bool-cases (too_early keymap now u.last)) [
        | inl early ↦
            updates-Paced rest u v top (Within-before u.last now top rest w.0 w.1) t m
              (rw (updates, device_update, early) at e)
        | inr due ↦ elim (Option-cases (poll_events keymap events (due_update now u))) [
          | inl bad ↦
              let stuck : none ≡ some v = rw (updates, device_update, due, bad) at e in absurd (cc)
          | inr (q, good) ↦
              let (space, last) = poll_events-clock keymap events (due_update now u) q good in
              let after : updates rest q ≡ some v = rw (updates, device_update, due, good) at e in
              let tick : mtime q ≡ u64 (mtime u + 1) =
                ap (λ f. load f (base + mtimelo) 8) space
                ∙ load-store_double u.space (base + mtimelo) (u64 (mtime u + 1)) (omega arith) in
              let past : now ≤ top = Within-end now top rest w.1 in
              let more = updates-Paced rest q v top (rw last w.1) t (omega (arith, tick)) after in
              let long : update_interval ≤ now - u.last = ground (arith, w.0, past) in
              record {
                ticks = suc more.ticks;
                counted = omega (arith, more.counted, tick);
                paced = omega (arith, more.paced, last, long, w.0);
              }
        ]
      ]
