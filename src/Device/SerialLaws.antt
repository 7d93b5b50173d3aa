-- ===== src/Device/SerialLaws.antt =====
-- A driver that polls the serial port of src/device/serial.c.
use gs_emu.Base.{
  ℕ, zero, suc, ◌+◌, ◌-◌, ◌%◌, ◌^◌, ◌<◌, ◌≡◌, refl, ap, ◌∙◌, true, false, Option, none, some, List,
  [], ◌∷◌, leb, ◌==◌, length, arith,
}
use gs_emu.Memory.Host.{Bytes, load, put, host_read}
use gs_emu.Memory.HostLaws.{load-put}
use gs_emu.Memory.IoMap.{IoMap, IoState, invoke_callback, map_read}
use gs_emu.Device.Serial.{
  Terminal, is_kb_hit, read_kb_byte, serial_getc, line_status, serial_io_handler,
}

abbrev pub AllBytes : List ℕ → Type 0
AllBytes [] = Unit {0}
AllBytes (b ∷ bs) = (b < 2 ^ 8) × AllBytes bs

module _ (base low : ℕ) where
  abbrev pub uart : IoMap Terminal
  uart = record {
    low = low;
    high = low + 0xfff;
    space = base;
    callback = some (serial_io_handler base);
  }

  -- A driver: while the line status says that a byte is there, take it; at most `n` bytes.
  abbrev pub drain : ℕ → IoState Terminal → Option (List ℕ × IoState Terminal)
  drain zero io = some ([], io)
  drain (suc n) io = elim (map_read (low + 5) 1 (some uart) io) [
    | none ↦ none
    | some (status, io') ↦ elim (status % 2 == 1) [
      | false ↦ some ([], io')
      | true ↦ elim (map_read (low + 0) 1 (some uart) io') [
        | none ↦ none
        | some (b, io'') ↦ elim (drain n io'') [
          | none ↦ none
          | some (bs, last) ↦ some (b ∷ bs, last)
        ]
      ]
    ]
  ]

  uart_read :
      (o : ℕ) (f g : Bytes) (t u : Terminal)
      → o < 8
      → serial_io_handler base o 1 false (f, t) ≡ some (g, u)
      → map_read (low + o) 1 (some uart) (f, t) ≡ some (load g (base + o) 1, (g, u))
  unfolding map_read invoke_callback host_read
  uart_read o f g t u h e =
      let below : leb (low + o) (low + 0xfff) ≡ true = ground arith in
      let above : leb low (low + o) ≡ true = ground arith in
      let place : low + o - low ≡ o = omega arith in rw (below, above, place, e) (rw place refl)

  abbrev pub terminal : List ℕ → List ℕ → Terminal
  terminal bs out = record { waiting = bs; hung_up = false; is_eofd = false; output = out }

  poll :
      (v : ℕ) (f : Bytes) (t : Terminal)
      → v < 2 ^ 8
      → serial_io_handler base 5 1 false (f, t) ≡ some (put f (base + 5) v, t)
      → map_read (low + 5) 1 (some uart) (f, t) ≡ some (v, (put f (base + 5) v, t))
  poll v f t h e =
      uart_read 5 f (put f (base + 5) v) t t (omega arith) e
      ∙ ap (λ x. some (x, (put f (base + 5) v, t))) (load-put f (base + 5) v ∙ omega arith)

  take_byte :
      (b : ℕ) (bs out : List ℕ) (f : Bytes)
      → b < 2 ^ 8
      → map_read (low + 0) 1 (some uart) (f, terminal (b ∷ bs) out)
        ≡ some (b, (put f base (b % 2 ^ 8), terminal bs out))
  unfolding serial_io_handler serial_getc is_kb_hit read_kb_byte
  take_byte b bs out f h =
      let g : Bytes = put f base (b % 2 ^ 8) in
      let start : base + 0 ≡ base = omega arith in
      let value : load g (base + 0) 1 ≡ b =
        let stored = load-put f base (b % 2 ^ 8) in rw start (omega (arith, stored)) in
      uart_read 0 f g (terminal (b ∷ bs) out) (terminal bs out) (omega arith) refl
      ∙ ap (λ x. some (x, (g, terminal bs out))) value

  -- A driver that polls the line status and takes a byte while one is there receives all the
  -- bytes that wait, in their order, and leaves none and the output as it was, when the terminal
  -- is not hung up and the driver may take more bytes than wait.
  pub drain-waiting :
      (bs out : List ℕ) (n : ℕ) (f : Bytes)
      → AllBytes bs
      → length bs < n
      → (g : Bytes) × (drain n (f, terminal bs out) ≡ some (bs, (g, terminal [] out)))
  unfolding serial_io_handler line_status is_kb_hit
  drain-waiting bs out zero f a l = absurd (omega arith)
  drain-waiting [] out (suc n) f a l =
      (put f (base + 5) 0x60, rw (drain, poll 0x60 f (terminal [] out) (omega arith) refl) refl)
  drain-waiting (b ∷ bs) out (suc n) f a l =
      let f1 : Bytes = put f (base + 5) 0x61 in
      let (g, e) = drain-waiting bs out n (put f1 base (b % 2 ^ 8)) a.1 (omega arith) in
      (
        g,
        rw (drain, poll 0x61 f (terminal (b ∷ bs) out) (omega arith) refl)
            (rw (take_byte b bs out f1 a.0) (rw e refl)),
      )
