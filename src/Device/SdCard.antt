-- ===== src/Device/SdCard.antt =====
-- src/device/sdcard.c, with the command numbers of src/device/mmc.h. The image is a file of the C
-- library: its operations are parameters. `base` is the place of the registers in the device space.
-- `none` is a `panic`.
use gs_emu.Base.{
  ℕ, ◌+◌, ◌-◌, ◌*◌, ◌/◌, ◌%◌, ◌^◌, bit_or, Bool, true, false, ◌&&◌, ◌||◌, Option, none, some, leb,
  ◌==◌, if◌then◌else◌,
}
use gs_emu.Word.{u32}
use gs_emu.Memory.Host.{Bytes, load, store}
use gs_emu.Memory.IoMap.{IoState}

-- `fseek(fp, p, SEEK_SET)`, `fread(&word, 4, 1, fp)` where `none` leaves the word as it was, and
-- `fwrite(&word, 4, 1, fp)`.
pub record File : Type 1 where
  pub F : Type 0
  pub fseek : ℕ → F → F
  pub fread : F → Option ℕ × F
  pub fwrite : ℕ → F → F

-- The state that is not in the registers.
pub record Card (F : Type 0) : Type 0 where
  pub fp : Option F
  pub blkcnt : ℕ
  pub blk_addr : ℕ
  pub addr : ℕ
  pub write_cmd : Bool
  pub read_ext_csd : Bool

abbrev pub memory_size : ℕ
memory_size = 16 * 1024 * 1024 * 1024

abbrev pub read_bl_len : ℕ
read_bl_len = 15

-- `C_SIZE`, with `MULT` = 1 << 9.
abbrev pub c_size : ℕ
c_size = memory_size / 2 ^ 15 / 2 ^ 9 - 1

module _ (base : ℕ) where
  -- `base[i]`.
  abbrev pub reg : Bytes → ℕ → ℕ
  reg f i = load f (base + 4 * i) 4

  abbrev pub set_reg : ℕ → ℕ → Bytes → Bytes
  set_reg i v f = store f (base + 4 * i) 4 v

  module _ (file : File) where
    unfoldable pub prepare_rw : Bool → IoState (Card file.F) → IoState (Card file.F)
    prepare_rw is_write (f, c) = (
      f,
      record c {
        blk_addr = reg f 1;
        addr = 0;
        fp = elim c.fp [ none ↦ none | some h ↦ some (file.fseek (reg f 1 * 2 ^ 9) h) ];
        write_cmd = is_write;
      },
    )

    -- The commands that do nothing: go idle, 52, sleep, app, relative address, select, stop.
    abbrev pub is_silent : ℕ → Bool
    is_silent cmd =
        cmd == 0
        || (cmd == 52 || (cmd == 5 || (cmd == 55 || (cmd == 3 || (cmd == 7 || cmd == 12)))))

    unfoldable pub sdcard_handle_cmd : ℕ → IoState (Card file.F) → Option (IoState (Card file.F))
    sdcard_handle_cmd cmd (f, c) =
        if is_silent cmd
        then some (f, c)
        else (if cmd == 1
            then some (set_reg 4 0x80ff_8000 f, c)
            else (if cmd == 2
                then some (set_reg 7 0x1500_0000 (set_reg 6 0 (set_reg 5 0 (set_reg 4 1 f))), c)
                else (if cmd == 9
                    then some (
                      set_reg 7 0x9026_012a (
                          set_reg 6
                            (bit_or (bit_or 0x0f50_8000 (c_size / 4)) (read_bl_len * 2 ^ 16))
                            (set_reg 5 (bit_or 0x124b_97e3 (c_size % 4 * 2 ^ 30))
                              (set_reg 4 0x9240_4001 f))),
                      c,
                    )
                    else (if cmd == 8
                        then some (f, record c { read_ext_csd = true; addr = 0 })
                        else (if cmd == 23
                            then some (f, record c { blkcnt = reg f 1 % 2 ^ 16 })
                            else (if cmd == 18
                                then some (prepare_rw false (f, c))
                                else (if cmd == 25
                                    then some (prepare_rw true (f, c))
                                    else (if cmd == 13
                                        then some (
                                          set_reg 5 0
                                              (set_reg 6 0 (set_reg 7 0 (set_reg 4 0x900 f))),
                                          c,
                                        )
                                        else none))))))))

    -- The words of the extended CSD.
    abbrev pub ext_csd : ℕ → ℕ
    ext_csd addr = if addr == 192 then 2 else (if addr == 212 then memory_size / 512 else 0)

    -- The label `SDDATA`.
    unfoldable pub transfer : IoState (Card file.F) → IoState (Card file.F)
    transfer (f, c) =
        if c.read_ext_csd
        then (
          set_reg 16 (ext_csd c.addr) f,
          record c {
            read_ext_csd = if c.addr == 512 - 4 then false else true;
            addr = u32 (c.addr + 4);
          },
        )
        else elim c.fp [
          | none ↦ (f, record c { addr = u32 (c.addr + 4) })
          | some h ↦ elim c.write_cmd [
            | true ↦ (f, record c { fp = some (file.fwrite (reg f 16) h); addr = u32 (c.addr + 4) })
            | false ↦ (
              elim (file.fread h).0 [ none ↦ f | some w ↦ set_reg 16 w f ],
              record c { fp = some (file.fread h).1; addr = u32 (c.addr + 4) },
            )
          ]
        ]

    -- The registers whose access does nothing: `SDARG` and the four of the answer.
    abbrev pub is_plain : ℕ → Bool
    is_plain idx = idx == 1 || (leb 4 idx && leb idx 7)

    unfoldable pub sdcard_io_handler :
        ℕ → ℕ → Bool → IoState (Card file.F) → Option (IoState (Card file.F))
    sdcard_io_handler offset len is_write (f, c) =
        if offset / 4 == 0
        then sdcard_handle_cmd (reg f 0 % 64) (f, c)
        else (if is_plain (offset / 4)
            then some (f, c)
            else (if offset / 4 == 16 then some (transfer (f, c)) else none))
