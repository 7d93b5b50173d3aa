-- ===== src/Monitor/LoadLaws.antt =====
-- Where the files of the command line stand in memory (src/monitor/monitor.c).
use gs_emu.Base.{
  ℕ, zero, suc, ◌+◌, ◌-◌, ◌*◌, ◌<◌, ◌≤◌, ◌≡◌, ◌⊎◌, inl, inr, refl, ◌∙◌, true, false, not, ◌&&◌,
  Option, none, some, List, [], ◌∷◌, length, get_or, leb, ◌==◌, arith,
}
use gs_emu.Word.{u32}
use gs_emu.Memory.Host.{Bytes, put}
use gs_emu.Memory.IoMap.{msize}
use gs_emu.Memory.Physical.{guest_to_host}
use gs_emu.Riscv.Init.{reset_vector, pmem_dtb}
use gs_emu.Monitor.Args.{Args}
use gs_emu.Monitor.Load.{pmem_kernel, put_bytes, input_file_load, load_files, load_img, is_absent}

pub put_bytes-outside :
    (f : Bytes) (a : ℕ) (bs : List ℕ) (x : ℕ)
    → (x < a) ⊎ (a + length bs ≤ x)
    → put_bytes f a bs x ≡ f x
unfolding put_bytes
put_bytes-outside f a [] x h = refl
put_bytes-outside f a (b ∷ bs) x h =
    put_bytes-outside (put f a b) (a + 1) bs x (ground arith) ∙ ground arith

-- The bytes of a file, each in its place.
abbrev pub At : Bytes → ℕ → List ℕ → Type 0
At f a bs = (i : ℕ) → i < length bs → f (a + i) ≡ get_or bs i 0

put_bytes-At : (f : Bytes) (a : ℕ) (bs : List ℕ) → At (put_bytes f a bs) a bs
unfolding put_bytes
put_bytes-At f a [] i l = absurd (omega arith)
put_bytes-At f a (b ∷ bs) zero l =
    put_bytes-outside (put f a b) (a + 1) bs (a + 0) (inl (omega arith)) ∙ ground arith
put_bytes-At f a (b ∷ bs) (suc i) l =
    let place : a + suc i ≡ a + 1 + i = omega arith in
    rw place (put_bytes-At (put f a b) (a + 1) bs i (omega arith))

-- Bytes written elsewhere leave a file in its place.
At-put_bytes :
    (f : Bytes) (a c : ℕ) (bs cs : List ℕ)
    → (a + length bs ≤ c) ⊎ (c + length cs ≤ a)
    → At f a bs
    → At (put_bytes f c cs) a bs
At-put_bytes f a c bs cs apart h i l = put_bytes-outside f c cs (a + i) (ground arith) ∙ h i l

-- The places of the kernel and of the device tree in the array.
abbrev pub kernel_place : ℕ
kernel_place = 0x20_0000

abbrev pub dtb_place : ℕ
dtb_place = msize - 1024 * 1024 * 20

module _ (read_file : List ℕ → Option (List ℕ)) where
  -- The bytes that the file of an option gives: none where the option is not there, and some where it
  -- is.
  abbrev pub Gives : Option (List ℕ) → List ℕ → Type 0
  Gives none bs = bs ≡ []
  Gives (some file_name) bs = (read_file file_name ≡ some bs) × (0 < length bs)

  input_file_load-Gives :
      (file : Option (List ℕ)) (bs : List ℕ) (paddr place : ℕ) (f : Bytes)
      → Gives file bs
      → guest_to_host paddr ≡ place
      → place + length bs ≤ msize
      → input_file_load read_file file paddr f ≡ some (length bs, put_bytes f place bs)
  unfolding input_file_load put_bytes
  input_file_load-Gives none bs paddr place f g p h = rw g refl
  input_file_load-Gives (some name) bs paddr place f g p h =
      let more = g.1 in
      let fits : (not (length bs == 0) && leb (place + length bs) msize) ≡ true = ground arith in
      let size : u32 (length bs) ≡ length bs = omega arith in
      rw (input_file_load, g.0, p) (rw (fits, size) refl)

  absent-empty :
      (file : Option (List ℕ)) (bs : List ℕ)
      → Gives file bs
      → is_absent read_file file ≡ true
      → length bs ≡ 0
  absent-empty none bs g e = rw g refl
  absent-empty (some name) bs g e = cc

  load_files-places :
      (a : Args) (is bs ks ds : List ℕ) (f : Bytes)
      → Gives a.img_file is
      → Gives a.bios_file bs
      → Gives a.kernel_file ks
      → Gives a.dtb_file ds
      → length is + length bs ≤ kernel_place
      → kernel_place + length ks ≤ dtb_place
      → dtb_place + length ds ≤ msize
      → 0 < length is + length bs + length ks
      → load_files read_file a f
        ≡ some (
          length is + length bs + length ks + length ds,
          put_bytes
              (put_bytes (put_bytes (put_bytes f 0 is) (length is) bs) kernel_place ks)
              dtb_place
              ds,
        )
  unfolding load_files guest_to_host
  load_files-places a is bs ks ds f gi gb gk gd hi hk hd some_file =
      let f1 = put_bytes f 0 is in
      let f2 = put_bytes f1 (length is) bs in
      let f3 = put_bytes f2 kernel_place ks in
      let behind : guest_to_host (u32 (reset_vector + length is)) ≡ length is = omega arith in
      let l1 = input_file_load-Gives a.img_file is reset_vector 0 f gi refl (omega arith) in
      let l2 =
        input_file_load-Gives a.bios_file bs (u32 (reset_vector + length is)) (length is) f1 gb
          behind (omega arith) in
      let l3 =
        input_file_load-Gives a.kernel_file ks pmem_kernel kernel_place f2 gk refl (omega arith) in
      let l4 = input_file_load-Gives a.dtb_file ds pmem_dtb dtb_place f3 gd refl (omega arith) in
      let more : (length is + length bs + length ks == 0) ≡ false = ground arith in
      rw (load_files, l1, l2, l3, more) (rw l4 refl)

  -- When each file of the command line opens and is not empty, the image and the bios fit below the
  -- kernel, the kernel below the device tree, and one of those three is there, `load_img` returns the
  -- sum of the sizes; the image is at the reset vector, the bios behind it, and the kernel and the
  -- device tree at their places, byte for byte, and the other bytes are as before.
  pub load_img-places :
      (a : Args) (is bs ks ds : List ℕ) (f : Bytes)
      → Gives a.img_file is
      → Gives a.bios_file bs
      → Gives a.kernel_file ks
      → Gives a.dtb_file ds
      → length is + length bs ≤ kernel_place
      → kernel_place + length ks ≤ dtb_place
      → dtb_place + length ds ≤ msize
      → 0 < length is + length bs + length ks
      → (g : Bytes) × (load_img read_file a f
          ≡ some (length is + length bs + length ks + length ds, g))
        × At g 0 is
        × At g (length is) bs
        × At g kernel_place ks
        × At g dtb_place ds
        × ((x : ℕ)
            → length is + length bs ≤ x
            → (x < kernel_place) ⊎ (kernel_place + length ks ≤ x)
            → (x < dtb_place) ⊎ (dtb_place + length ds ≤ x)
            → g x ≡ f x)
  unfolding load_img
  load_img-places a is bs ks ds f gi gb gk gd hi hk hd some_file =
      let f1 = put_bytes f 0 is in
      let f2 = put_bytes f1 (length is) bs in
      let f3 = put_bytes f2 kernel_place ks in
      let f4 = put_bytes f3 dtb_place ds in
      let n1 = absent-empty a.img_file is gi in
      let n2 = absent-empty a.bios_file bs gb in
      let n3 = absent-empty a.kernel_file ks gk in
      let given : (is_absent read_file a.img_file
            && is_absent read_file a.bios_file
            && is_absent read_file a.dtb_file
            && is_absent read_file a.kernel_file)
          ≡ false =
        ground arith in
      (
        f4,
        rw (load_img, given) (load_files-places a is bs ks ds f gi gb gk gd hi hk hd some_file),
        At-put_bytes f3 0 dtb_place is ds (inl (omega arith)) (
            At-put_bytes f2 0 kernel_place is ks (inl (omega arith))
              (At-put_bytes f1 0 (length is) is bs (inl (omega arith)) (put_bytes-At f 0 is))),
        At-put_bytes f3 (length is) dtb_place bs ds (inl (omega arith)) (
            At-put_bytes f2 (length is) kernel_place bs ks (inl (omega arith))
              (put_bytes-At f1 (length is) bs)),
        At-put_bytes f3 kernel_place dtb_place ks ds (inl (omega arith))
            (put_bytes-At f2 kernel_place ks),
        put_bytes-At f3 dtb_place ds,
        λ x beyond no_kernel no_dtb.
            put_bytes-outside f3 dtb_place ds x no_dtb
            ∙ put_bytes-outside f2 kernel_place ks x no_kernel
            ∙ put_bytes-outside f1 (length is) bs x (inr beyond)
            ∙ put_bytes-outside f 0 is x (inr (omega arith)),
      )
