-- ===== src/Memory/Host.antt =====
-- include/memory/host.h: access to an array of bytes of the host, little endian. `none` is the
-- `assert(0)` of `CONFIG_RT_CHECK`.
use gs_emu.Base.{ℕ, zero, suc, ◌+◌, ◌*◌, ◌/◌, ◌%◌, ◌^◌, Option, none, some, ◌==◌, if◌then◌else◌}
use gs_emu.Word.{u32}

abbrev pub Bytes : Type 0
Bytes = ℕ → ℕ

abbrev pub put : Bytes → ℕ → ℕ → Bytes
put f a v x = if x == a then v else f x

-- `*(uintN_t *)addr` for `n` bytes.
unfoldable pub load : Bytes → ℕ → ℕ → ℕ
load f a zero = 0
load f a (suc n) = f a % 2 ^ 8 + 2 ^ 8 * load f (a + 1) n

-- `*(uintN_t *)addr = v`.
unfoldable pub store : Bytes → ℕ → ℕ → ℕ → Bytes
store f a zero v = f
store f a (suc n) v = store (put f a (v % 2 ^ 8)) (a + 1) n (v / 2 ^ 8)

-- The result is converted to `word_t`, so an access of 8 bytes gives the low 4.
unfoldable pub host_read : Bytes → ℕ → ℕ → Option ℕ
host_read f a len =
    if len == 1
    then some (load f a 1)
    else if len == 2
    then some (load f a 2)
    else if len == 4
    then some (load f a 4)
    else if len == 8
    then some (u32 (load f a 8))
    else none

-- The case 8 stores a `uint32_t`.
unfoldable pub host_write : Bytes → ℕ → ℕ → ℕ → Option Bytes
host_write f a len data' =
    if len == 1
    then some (store f a 1 data')
    else if len == 2
    then some (store f a 2 data')
    else if len == 4
    then some (store f a 4 data')
    else if len == 8
    then some (store f a 4 data')
    else none
