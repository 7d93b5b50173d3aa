-- ===== src/Device/Serial.antt =====
-- src/device/serial.c. The terminal of the C library is a state: the bytes that wait, whether a
-- write to it fails, and what was printed. The numbers are those of the 16550 in linux/serial_reg.h.
use gs_emu.Base.{
  ℕ, ◌+◌, ◌%◌, ◌^◌, Bool, true, ◌&&◌, Option, some, List, [], ◌∷◌, ◌++◌, ◌==◌, if◌then◌else◌,
}
use gs_emu.Memory.Host.{put}
use gs_emu.Memory.IoMap.{IoState}

pub record Terminal : Type 0 where
  pub waiting : List ℕ
  pub hung_up : Bool
  pub is_eofd : Bool
  pub output : List ℕ

-- What `IsKBHit` returns: 0, 1 or -1.
pub data Hit : Type 0 where
  nothing byte_waits no_terminal : Hit

unfoldable pub is_kb_hit : Terminal → Hit × Terminal
is_kb_hit t = if t.is_eofd then (no_terminal, t) else elim t.waiting [
  | [] ↦ if t.hung_up then (no_terminal, record t { is_eofd = true }) else (nothing, t)
  | _ ∷ _ ↦ (byte_waits, t)
]

module _ (base : ℕ) where
  -- `ReadKBByte`: `read` of one byte, which goes to `UART_RX`.
  unfoldable pub read_kb_byte : IoState Terminal → IoState Terminal
  read_kb_byte (f, t) = if t.is_eofd then (f, t) else elim t.waiting [
    | [] ↦ (f, t)
    | b ∷ bs ↦ (put f base (b % 2 ^ 8), record t { waiting = bs })
  ]

  unfoldable pub serial_getc : IoState Terminal → IoState Terminal
  serial_getc (f, t) =
      let (hit, t') = is_kb_hit t in elim hit [ nothing ↦ (f, t') | _ ↦ read_kb_byte (f, t') ]

  unfoldable pub serial_putc : ℕ → Terminal → Terminal
  serial_putc ch t = record t { output = t.output ++ ch ∷ [] }

  -- The label `UART_LSR` of a read: `UART_LSR_TEMT | UART_LSR_THRE` and the byte that waits.
  unfoldable pub line_status : IoState Terminal → IoState Terminal
  line_status (f, t) =
      let (hit, t') = is_kb_hit t in
      (put f (base + 5) (elim hit [ nothing ↦ 0x60 | byte_waits ↦ 0x61 | no_terminal ↦ 0xff ]), t')

  -- The messages on standard error are left out.
  unfoldable pub serial_io_handler : ℕ → ℕ → Bool → IoState Terminal → Option (IoState Terminal)
  serial_io_handler offset len is_write (f, t) = some (
      if offset == 0
      then (if is_write then (f, serial_putc (f base % 2 ^ 8) t) else serial_getc (f, t))
      else (if offset == 3
          then (if is_write && f (base + 3) % 2 ^ 8 == 3 then (put f (base + 3) 0, t) else (f, t))
          else (if offset == 5
              then (if is_write then (f, t) else line_status (f, t))
              else (put f (base + offset) 0, t))))
