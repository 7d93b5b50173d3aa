-- ===== src/Monitor/Load.antt =====
-- `input_file_load` and `load_img` of src/monitor/monitor.c, and the copy of the built-in image in
-- `init_isa` (src/isa/riscv32/init.c). The files of the host are a parameter: the bytes of a file by
-- its name, `none` where it does not open. `none` as a result is a failed assertion, or a copy past the
-- end of the array of the memory, which is undefined in C.
use gs_emu.Base.{
  ℕ, ◌+◌, Bool, true, false, ◌&&◌, not, Option, none, some, List, [], ◌∷◌, length, leb, ◌==◌,
  if◌then◌else◌,
}
use gs_emu.Word.{u32}
use gs_emu.Memory.Host.{Bytes, put, store}
use gs_emu.Memory.IoMap.{msize}
use gs_emu.Memory.Physical.{guest_to_host}
use gs_emu.Riscv.Init.{reset_vector, pmem_dtb}
use gs_emu.Monitor.Args.{Args}

abbrev pub pmem_kernel : ℕ
pmem_kernel = reset_vector + 0x20_0000

-- `fread` of a whole file to a place of the array.
unfoldable pub put_bytes : Bytes → ℕ → List ℕ → Bytes
put_bytes f a [] = f
put_bytes f a (b ∷ bs) = put_bytes (put f a b) (a + 1) bs

-- `memcpy` of an array of words.
unfoldable pub put_words : Bytes → ℕ → List ℕ → Bytes
put_words f a [] = f
put_words f a (w ∷ ws) = put_words (store f a 4 w) (a + 4) ws

-- `img` of init.c.
abbrev pub img : List ℕ
img = 0x0ce6_d063 ∷ []

module _ (read_file : List ℕ → Option (List ℕ)) where
  -- The size, and the memory behind it. `fread` gives 1 for one item of `size` bytes, and 0 when that
  -- is 0.
  unfoldable pub input_file_load : Option (List ℕ) → ℕ → Bytes → Option (ℕ × Bytes)
  input_file_load none paddr pmem = some (0, pmem)
  input_file_load (some file_name) paddr pmem = elim (read_file file_name) [
    | none ↦ none
    | some bytes ↦
        if not (length bytes == 0) && leb (guest_to_host paddr + length bytes) msize
        then some (u32 (length bytes), put_bytes pmem (guest_to_host paddr) bytes)
        else none
  ]

  abbrev pub is_absent : Option (List ℕ) → Bool
  is_absent none = true
  is_absent (some f) = false

  -- Three loads in turn, the second behind the first; then the device tree unless nothing was loaded.
  -- `total_size` is a sum of 64 digits.
  unfoldable pub load_files : Args → Bytes → Option (ℕ × Bytes)
  load_files a pmem = elim (input_file_load a.img_file reset_vector pmem) [
    | none ↦ none
    | some (img_size, p) ↦ elim (input_file_load a.bios_file (u32 (reset_vector + img_size)) p) [
      | none ↦ none
      | some (bios_size, q) ↦ elim (input_file_load a.kernel_file pmem_kernel q) [
        | none ↦ none
        | some (kernel_size, r) ↦
            if img_size + bios_size + kernel_size == 0
            then some (4096, r)
            else elim (input_file_load a.dtb_file pmem_dtb r) [
              | none ↦ none
              | some (dtb_size, s) ↦ some (img_size + bios_size + kernel_size + dtb_size, s)
            ]
      ]
    ]
  ]

  unfoldable pub load_img : Args → Bytes → Option (ℕ × Bytes)
  load_img a pmem =
      if is_absent a.img_file
        && is_absent a.bios_file
        && is_absent a.dtb_file
        && is_absent a.kernel_file
      then some (4096, pmem)
      else load_files a pmem
