-- ===== src/Tests/Parts.antt =====
-- The theorems on the patterns, the memory, the keyboard and the run at concrete inputs.
use gs_emu.Base.{◌≡◌, refl, inr, some, [], ◌∷◌, ◌==◌, if◌then◌else◌, arith}
use gs_emu.Decode.Pattern.{pat, pattern_decode, pattern_loop, instpat_test}
use gs_emu.Decode.Fits.{fits, pattern_decode-fits}
use gs_emu.Memory.Host.{store, host_write}
use gs_emu.Memory.IoMap.{in_pmem}
use gs_emu.Memory.Physical.{Memory, guest_to_host, paddr_read, paddr_write}
use gs_emu.Memory.PhysicalLaws.{value, paddr_read-paddr_write, paddr_read-elsewhere}
use gs_emu.Device.Keyboard.{Keys, key_enqueue, key_dequeue}
use gs_emu.Device.KeyboardLaws.{
  IsQueue, contents, spec_dequeue, Enqueued, key_enqueue-Enqueued, key_dequeue-spec_dequeue,
}
use gs_emu.Tests.Fixture.{Dev, memory}

pattern_decode-fits_example :
    instpat_test (pat 0x33 0x7f 0) 0x33
    ≡ fits (b'0' ∷ b'1' ∷ b'1' ∷ b'0' ∷ b'0' ∷ b'1' ∷ b'1' ∷ []) 0x33
unfolding pattern_decode pattern_loop
pattern_decode-fits_example =
    pattern_decode-fits (b'0' ∷ b'1' ∷ b'1' ∷ b'0' ∷ b'0' ∷ b'1' ∷ b'1' ∷ []) 0x33 refl

-- A word that goes to the last four bytes of the first page.
abbrev stored_memory : Memory Dev
stored_memory = record memory { pmem = store memory.pmem 0xffc 4 0xdead_beef }

stores : paddr_write 0x8000_0ffc 4 0xdead_beef memory ≡ some stored_memory
unfolding paddr_write in_pmem guest_to_host host_write
stores = refl

paddr_read-paddr_write_example :
    paddr_read 0x8000_0ffc 4 stored_memory ≡ some (0xdead_beef, stored_memory)
unfolding in_pmem
paddr_read-paddr_write_example =
    paddr_read-paddr_write memory stored_memory 0x8000_0ffc 4 0xdead_beef refl stores

paddr_read-elsewhere_example :
    value (paddr_read 0x8000_1000 4 stored_memory) ≡ value (paddr_read 0x8000_1000 4 memory)
unfolding in_pmem
paddr_read-elsewhere_example =
    paddr_read-elsewhere memory stored_memory 0x8000_0ffc 4 0xdead_beef 0x8000_1000 4 (omega arith)
      (omega arith) refl refl (inr (omega arith)) stores

-- One code waits in the last place of the array.
abbrev keys : Keys
keys = record { key_queue = λ i. if i == 1023 then 7 else 0; key_f = 1023; key_r = 0 }

keys-IsQueue : IsQueue keys
keys-IsQueue = record { front = omega arith; rear = omega arith }

key_enqueue-Enqueued_example : Enqueued 9 keys (key_enqueue 9 keys)
key_enqueue-Enqueued_example = key_enqueue-Enqueued 9 keys keys-IsQueue

key_dequeue-spec_dequeue_example :
    IsQueue (key_dequeue keys).1
    × (((key_dequeue keys).0, contents (key_dequeue keys).1) ≡ spec_dequeue (contents keys))
key_dequeue-spec_dequeue_example = key_dequeue-spec_dequeue keys keys-IsQueue
