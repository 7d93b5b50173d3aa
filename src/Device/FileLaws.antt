-- ===== src/Device/FileLaws.antt =====
-- The image of the SD card (src/device/sdcard.c): the file that its functions work on.
use gs_emu.Base.{ℕ, ◌+◌, ◌≤◌, ◌≡◌, refl, ◌∙◌, Option, some, List, [], ◌∷◌, arith}
use gs_emu.Device.SdCard.{File}

-- What is documented of the file: a word written is at its place, the place moves by four bytes,
-- and words before it stay. `word_at` is `none` past the end.
pub record IsFile (file : File) : Type 0 where
  pub position : file.F → ℕ
  pub word_at : file.F → ℕ → Option ℕ
  pub fseek_position : (p : ℕ) (h : file.F) → position (file.fseek p h) ≡ p
  pub fseek_word : (p : ℕ) (h : file.F) (q : ℕ) → word_at (file.fseek p h) q ≡ word_at h q
  pub fwrite_position : (w : ℕ) (h : file.F) → position (file.fwrite w h) ≡ position h + 4
  pub fwrite_word : (w : ℕ) (h : file.F) → word_at (file.fwrite w h) (position h) ≡ some w
  pub fwrite_before :
      (w : ℕ) (h : file.F) (q : ℕ) → q + 4 ≤ position h → word_at (file.fwrite w h) q ≡ word_at h q
  pub fread_word :
      (h : file.F) (w : ℕ) → word_at h (position h) ≡ some w → (file.fread h).0 ≡ some w
  pub fread_position :
      (h : file.F) (w : ℕ)
      → word_at h (position h) ≡ some w
      → position (file.fread h).1 ≡ position h + 4
  pub fread_same : (h : file.F) (q : ℕ) → word_at (file.fread h).1 q ≡ word_at h q

-- The words of the file from a place on.
module _ (file : File) (laws : IsFile file) where
  abbrev pub Holds : file.F → ℕ → List ℕ → Type 0
  Holds h p [] = Unit {0}
  Holds h p (w ∷ ws) = (laws.word_at h p ≡ some w) × Holds h (p + 4) ws

  abbrev pub writes : List ℕ → file.F → file.F
  writes [] h = h
  writes (w ∷ ws) h = writes ws (file.fwrite w h)

  pub writes-before :
      (ws : List ℕ) (h : file.F) (q : ℕ)
      → q + 4 ≤ laws.position h
      → laws.word_at (writes ws h) q ≡ laws.word_at h q
  writes-before [] h q l = refl
  writes-before (w ∷ ws) h q l =
      let moved = laws.fwrite_position w h in
      writes-before ws (file.fwrite w h) q (omega arith) ∙ laws.fwrite_before w h q l

  pub writes-Holds :
      (ws : List ℕ) (h : file.F) (p : ℕ) → laws.position h ≡ p → Holds (writes ws h) p ws
  writes-Holds [] h p e = tt
  writes-Holds (w ∷ ws) h p e =
      let moved = laws.fwrite_position w h in
      let here : laws.word_at (file.fwrite w h) p ≡ some w = rw e at (laws.fwrite_word w h) in
      (
        writes-before ws (file.fwrite w h) p (omega arith) ∙ here,
        writes-Holds ws (file.fwrite w h) (p + 4) (omega arith),
      )

  pub Holds-same :
      (ws : List ℕ) (g h : file.F) (p : ℕ)
      → ((q : ℕ) → laws.word_at g q ≡ laws.word_at h q)
      → Holds h p ws
      → Holds g p ws
  Holds-same [] g h p s k = tt
  Holds-same (w ∷ ws) g h p s k = (s p ∙ k.0, Holds-same ws g h (p + 4) s k.1)
