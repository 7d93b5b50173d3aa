-- ===== src/Device/Keyboard.antt =====
-- src/device/keyboard.c: the queue of key codes. `none` is a failed assertion. The map from the
-- scan codes of the window system is a parameter.
use gs_emu.Base.{ℕ, ◌+◌, ◌%◌, bit_or, Bool, ◌&&◌, not, Option, none, some, ◌==◌, if◌then◌else◌}
use gs_emu.Riscv.Machine.{RunState}
use gs_emu.Cpu.Run.{is_running}

abbrev pub key_queue_len : ℕ
key_queue_len = 1024

abbrev pub key_none : ℕ
key_none = 0

abbrev pub keydown_mask : ℕ
keydown_mask = 0x8000

pub record Keys : Type 0 where
  pub key_queue : ℕ → ℕ
  pub key_f : ℕ
  pub key_r : ℕ

-- The `Assert` stands after the write.
unfoldable pub key_enqueue : ℕ → Keys → Option Keys
key_enqueue am_scancode k =
    let r = (k.key_r + 1) % key_queue_len in
    if not (r == k.key_f)
    then some (record k {
      key_queue = λ i. if i == k.key_r then am_scancode else k.key_queue i;
      key_r = r;
    })
    else none

unfoldable pub key_dequeue : Keys → ℕ × Keys
key_dequeue k =
    if not (k.key_f == k.key_r)
    then (k.key_queue k.key_f, record k { key_f = (k.key_f + 1) % key_queue_len })
    else (key_none, k)

unfoldable pub send_key : (ℕ → ℕ) → RunState → ℕ → Bool → Keys → Option Keys
send_key keymap st scancode is_keydown k =
    if is_running st && not (keymap scancode == key_none)
    then key_enqueue (bit_or (keymap scancode) (if is_keydown then keydown_mask else 0)) k
    else some k

-- `i8042_data_io_handler`: the value that goes to the data port.
unfoldable pub i8042_data_io_handler : ℕ → Bool → Keys → Option (ℕ × Keys)
i8042_data_io_handler offset is_write k =
    if not is_write && offset == 0 then some (key_dequeue k) else none
