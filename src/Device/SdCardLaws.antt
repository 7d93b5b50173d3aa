-- ===== src/Device/SdCardLaws.antt =====
-- The SD card (src/device/sdcard.c) behind its region: what a driver writes, it reads.
use gs_emu.Base.{
  ℕ, zero, suc, ◌+◌, ◌-◌, ◌*◌, ◌%◌, ◌^◌, ◌<◌, ◌≡◌, inr, refl, ap, ◌∙◌, Bool, true, false, Option,
  none, some, List, [], ◌∷◌, length, leb, arith,
}
use gs_emu.Word.{u32}
use gs_emu.Memory.Host.{Bytes, load, store, host_read, host_write}
use gs_emu.Memory.HostLaws.{load-store_word, load-store_apart}
use gs_emu.Memory.IoMap.{IoMap, IoState, invoke_callback, map_read, map_write}
use gs_emu.Device.SdCard.{File, Card, prepare_rw, sdcard_handle_cmd, transfer, sdcard_io_handler}
use gs_emu.Device.FileLaws.{IsFile, Holds, writes, writes-Holds, Holds-same}

abbrev pub AllWords : List ℕ → Type 0
AllWords [] = Unit {0}
AllWords (w ∷ ws) = (w < 2 ^ 32) × AllWords ws

module _ (file : File) (base low : ℕ) where
  abbrev pub region : IoMap (Card file.F)
  region = record {
    low = low;
    high = low + 0x7f;
    space = base;
    callback = some (sdcard_io_handler base file);
  }

  abbrev pub Io : Type 0
  Io = IoState (Card file.F)

  -- The driver: an argument and a command; words to and from the data register.
  abbrev pub command : ℕ → ℕ → Io → Option Io
  command cmd arg io = elim (map_write (low + 4) 4 arg (some region) io) [
    | none ↦ none
    | some io' ↦ map_write (low + 0) 4 cmd (some region) io'
  ]

  abbrev pub write_words : List ℕ → Io → Option Io
  write_words [] io = some io
  write_words (w ∷ ws) io = elim (map_write (low + 64) 4 w (some region) io) [
    | none ↦ none
    | some io' ↦ write_words ws io'
  ]

  abbrev pub read_words : ℕ → Io → Option (List ℕ × Io)
  read_words zero io = some ([], io)
  read_words (suc n) io = elim (map_read (low + 64) 4 (some region) io) [
    | none ↦ none
    | some (w, io') ↦ elim (read_words n io') [
      | none ↦ none
      | some (ws, io'') ↦ some (w ∷ ws, io'')
    ]
  ]

  -- A block written from the sector `sector` on, then read.
  abbrev pub write_read : ℕ → List ℕ → Io → Option (List ℕ × Io)
  write_read sector ws io = elim (command 25 sector io) [
    | none ↦ none
    | some a ↦ elim (write_words ws a) [
      | none ↦ none
      | some b ↦ elim (command 18 sector b) [ none ↦ none | some c ↦ read_words (length ws) c ]
    ]
  ]

  region_write :
      (o v : ℕ) (f : Bytes) (c : Card file.F)
      → o < 128
      → map_write (low + o) 4 v (some region) (f, c)
        ≡ sdcard_io_handler base file o 4 true (store f (base + o) 4 v, c)
  unfolding map_write invoke_callback host_write
  region_write o v f c h =
      let below : leb (low + o) (low + 0x7f) ≡ true = ground arith in
      let above : leb low (low + o) ≡ true = ground arith in
      let place : low + o - low ≡ o = omega arith in rw (below, above, place) refl

  region_read :
      (o : ℕ) (f g : Bytes) (c d : Card file.F)
      → o < 128
      → sdcard_io_handler base file o 4 false (f, c) ≡ some (g, d)
      → map_read (low + o) 4 (some region) (f, c) ≡ some (load g (base + o) 4, (g, d))
  unfolding map_read invoke_callback host_read
  region_read o f g c d h e =
      let below : leb (low + o) (low + 0x7f) ≡ true = ground arith in
      let above : leb low (low + o) ≡ true = ground arith in
      let place : low + o - low ≡ o = omega arith in rw (below, above, place, e) (rw place refl)

  -- A card with an image that does not send its extended CSD.
  abbrev pub card : Bool → file.F → ℕ → ℕ → ℕ → Card file.F
  card w h k b a = record {
    fp = some h;
    blkcnt = k;
    blk_addr = b;
    addr = a;
    write_cmd = w;
    read_ext_csd = false;
  }

  -- A command that starts a transfer, `cmd` with the direction `w`.
  starts :
      (w : Bool) (cmd sector : ℕ) (f : Bytes) (v : Bool) (h : file.F) (k b a : ℕ)
      → sector < 2 ^ 32
      → cmd < 64
      → ((io : Io) → sdcard_handle_cmd base file cmd io ≡ some (prepare_rw base file w io))
      → command cmd sector (f, card v h k b a)
        ≡ some (
          store (store f (base + 4) 4 sector) (base + 0) 4 cmd,
          card w (file.fseek (sector * 2 ^ 9) h) k sector 0,
        )
  unfolding sdcard_io_handler prepare_rw
  starts w cmd sector f v h k b a l m e =
      let g : Bytes = store f (base + 4) 4 sector in
      let g' : Bytes = store g (base + 0) 4 cmd in
      let arg : load g' (base + 4) 4 ≡ sector =
        load-store_apart g (base + 0) (base + 4) cmd (inr (omega arith))
        ∙ load-store_word f (base + 4) sector l in
      let code : load g' (base + 0) 4 % 64 ≡ cmd =
        ap (λ x. x % 64) (load-store_word g (base + 0) cmd (omega arith)) ∙ omega arith in
      rw (command, region_write 4 sector f (card v h k b a) (omega arith), sdcard_io_handler)
        (rw (region_write 0 cmd g (card v h k b a) (omega arith), sdcard_io_handler)
          (rw (code, e (g', card v h k b a))
            (ap (λ (x : ℕ). some (g', card w (file.fseek (x * 2 ^ 9) h) k x 0)) arg)))

  put_word :
      (v : ℕ) (f : Bytes) (h : file.F) (k b a : ℕ)
      → v < 2 ^ 32
      → map_write (low + 64) 4 v (some region) (f, card true h k b a)
        ≡ some (store f (base + 64) 4 v, card true (file.fwrite v h) k b (u32 (a + 4)))
  unfolding sdcard_io_handler transfer
  put_word v f h k b a l =
      rw (region_write 64 v f (card true h k b a) (omega arith), sdcard_io_handler)
        (ap
          (λ (x : ℕ). some (store f (base + 64) 4 v, card true (file.fwrite x h) k b (u32 (a + 4))))
          (load-store_word f (base + 64) v l))

  get_word :
      (v : ℕ) (f : Bytes) (h : file.F) (k b a : ℕ)
      → v < 2 ^ 32
      → (file.fread h).0 ≡ some v
      → map_read (low + 64) 4 (some region) (f, card false h k b a)
        ≡ some (v, (store f (base + 64) 4 v, card false (file.fread h).1 k b (u32 (a + 4))))
  unfolding sdcard_io_handler transfer
  get_word v f h k b a l e =
      let d : Card file.F = card false (file.fread h).1 k b (u32 (a + 4)) in
      let handled : sdcard_io_handler base file 64 4 false (f, card false h k b a)
          ≡ some (store f (base + 64) 4 v, d) =
        rw (sdcard_io_handler, transfer, e) refl in
      region_read 64 f (store f (base + 64) 4 v) (card false h k b a) d (omega arith) handled
      ∙ ap (λ x. some (x, (store f (base + 64) 4 v, d))) (load-store_word f (base + 64) v l)

module _ (file : File) (laws : IsFile file) where
  module _ (base low : ℕ) where
    write_words-writes :
        (ws : List ℕ) (f : Bytes) (h : file.F) (k b a : ℕ)
        → AllWords ws
        → (g : Bytes) × (a' : ℕ) × (write_words file base low ws
              (f, card file base low true h k b a)
            ≡ some (g, card file base low true (writes file laws ws h) k b a'))
    write_words-writes [] f h k b a l = (f, a, refl)
    write_words-writes (w ∷ ws) f h k b a l =
        let (g, a', e) =
          write_words-writes ws (store f (base + 64) 4 w) (file.fwrite w h) k b (u32 (a + 4)) l.1 in
        (g, a', rw (write_words, put_word file base low w f h k b a l.0) e)

    read_words-Holds :
        (ws : List ℕ) (f : Bytes) (h : file.F) (k b a : ℕ)
        → AllWords ws
        → Holds file laws h (laws.position h) ws
        → (io : Io file base low) × (read_words file base low
              (length ws)
              (f, card file base low false h k b a)
            ≡ some (ws, io))
    read_words-Holds [] f h k b a l s = ((f, card file base low false h k b a), refl)
    read_words-Holds (w ∷ ws) f h k b a l s =
        let moved = laws.fread_position h w s.0 in
        let rest : Holds file laws (file.fread h).1 (laws.position (file.fread h).1) ws = rw moved (
          Holds-same file laws ws (file.fread h).1 h (laws.position h + 4) (laws.fread_same h)
            s.1) in
        let (io, e) =
          read_words-Holds ws (store f (base + 64) 4 w) (file.fread h).1 k b (u32 (a + 4)) l.1
            rest in
        (
          io,
          rw (read_words, get_word file base low w f h k b a l.0 (laws.fread_word h w s.0))
              (rw e refl),
        )

    -- Words that a driver writes to the card with command 25 and its data register, it reads
    -- back with command 18 from the same sector, each in its place, when the card has an image,
    -- does not send its extended CSD, the sector and the words have 32 digits, and the file
    -- keeps what is written.
    pub write_read-same :
        (sector : ℕ) (ws : List ℕ) (f : Bytes) (w : Bool) (h : file.F) (k b a : ℕ)
        → sector < 2 ^ 32
        → AllWords ws
        → (io : IoState (Card file.F)) × (write_read file base low sector ws
              (f, card file base low w h k b a)
            ≡ some (ws, io))
    unfolding sdcard_handle_cmd
    write_read-same sector ws f w h k b a l m =
        let p : ℕ = sector * 2 ^ 9 in
        let h1 : file.F = file.fseek p h in
        let (g, a', e) =
          write_words-writes ws (store (store f (base + 4) 4 sector) (base + 0) 4 25) h1 k sector 0
            m in
        let h2 : file.F = file.fseek p (writes file laws ws h1) in
        let stays : Holds file laws h2 p ws =
          Holds-same file laws ws h2 (writes file laws ws h1) p
            (laws.fseek_word p (writes file laws ws h1))
            (writes-Holds file laws ws h1 p (laws.fseek_position p h)) in
        let (io, r) =
          read_words-Holds ws (store (store g (base + 4) 4 sector) (base + 0) 4 18) h2 k sector 0 m
            (rw (laws.fseek_position p (writes file laws ws h1)) stays) in
        (
          io,
          rw
              (
                write_read,
                starts file base low true 25 sector f w h k b a l (omega arith) (λ io. refl),
              )
              (rw e (
                rw
                  (starts file base low false 18 sector g true (writes file laws ws h1) k sector a'
                    l (omega arith) (λ io. refl))
                  r)),
        )
