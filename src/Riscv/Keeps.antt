-- ===== src/Riscv/Keeps.antt =====
-- Commands that keep a property of the machine, whenever they return: the rules for `do` blocks.
use gs_emu.Base.{◌≡◌, subst, Bool, true, false, Option, none, some, if◌then◌else◌}
use gs_emu.Riscv.Machine.{Machine, Cmd, pure, skip, ◌>>=◌}

module _ {B : Type 0} where
  abbrev pub After : {A : Type 0} → (Machine B → Type 0) → Option (A × Machine B) → Type 0
  After P none = Unit
  After P (some (a, m)) = P m

  pub data Keeps {A : Type 0} (P : Machine B → Type 0) (c : Cmd B A) : Type 0 where
    keeps : ((m : Machine B) → P m → After P (c m)) → Keeps P c

  pub Keeps-run :
      {A : Type 0} {P : Machine B → Type 0} {c : Cmd B A}
      → Keeps P c
      → (m : Machine B) → P m
      → After P (c m)
  Keeps-run (keeps h) = h

  After-bind :
      {A C : Type 0} {P : Machine B → Type 0} {f : A → Cmd B C} (r : Option (A × Machine B))
      → After P r
      → ((a : A) → Keeps P (f a))
      → After P (elim r [ none ↦ none | some (a, m') ↦ f a m' ])
  After-bind none h k = tt
  After-bind (some (a, m)) h k = Keeps-run (k a) m h

  pub Keeps-bind :
      {A C : Type 0} {P : Machine B → Type 0} {c : Cmd B A} {f : A → Cmd B C}
      → Keeps P c
      → ((a : A) → Keeps P (f a))
      → Keeps P (c >>= f)
  unfolding ◌>>=◌
  Keeps-bind {c} h k = keeps (λ m p. After-bind (c m) (Keeps-run h m p) k)

  pub Keeps-pure : {A : Type 0} {P : Machine B → Type 0} (a : A) → Keeps P (pure a)
  Keeps-pure a = keeps (λ m p. p)

  pub Keeps-if :
      {A : Type 0} {P : Machine B → Type 0} (b : Bool) {c d : Cmd B A}
      → Keeps P c
      → Keeps P d
      → Keeps P (if b then c else d)
  Keeps-if true h k = h
  Keeps-if false h k = k

  pub Keeps-none : {A : Type 0} {P : Machine B → Type 0} → Keeps {A = A} P (λ m. none)
  Keeps-none = keeps (λ m p. tt)

  pub Keeps-skip : {P : Machine B → Type 0} → Keeps P skip
  Keeps-skip = keeps (λ m p. p)

  -- The test reads the state.
  pub Keeps-state :
      {A : Type 0} {P : Machine B → Type 0} (b : Machine B → Bool) (c d : Cmd B A)
      → Keeps P c
      → Keeps P d
      → Keeps P (λ m. (if b m then c else d) m)
  Keeps-state b c d h k = keeps λ m p. Keeps-run (Keeps-if (b m) h k) m p

  pub After-some :
      {A : Type 0} (P : Machine B → Type 0) {r : Option (A × Machine B)} {a : A} {t : Machine B}
      → r ≡ some (a, t)
      → After P r
      → P t
  After-some P e h = subst (After P) e h

  -- The command returns, and the property holds then.
  abbrev pub Returns : {A : Type 0} → (Machine B → Type 0) → Option (A × Machine B) → Type 0
  Returns P none = ⊥
  Returns P (some (a, m)) = P m

  -- A property that holds after a command, whatever held before.
  pub data Makes {A : Type 0} (P : Machine B → Type 0) (c : Cmd B A) : Type 0 where
    makes : ((m : Machine B) → After P (c m)) → Makes P c

  pub Makes-run :
      {A : Type 0} {P : Machine B → Type 0} {c : Cmd B A}
      → Makes P c
      → (m : Machine B) → After P (c m)
  Makes-run (makes h) = h

  After-then :
      {A C : Type 0} {P : Machine B → Type 0} {f : A → Cmd B C} (r : Option (A × Machine B))
      → ((a : A) → Makes P (f a))
      → After P (elim r [ none ↦ none | some (a, m') ↦ f a m' ])
  After-then none k = tt
  After-then (some (a, m)) k = Makes-run (k a) m

  -- The last command decides.
  pub Makes-then :
      {A C : Type 0} {P : Machine B → Type 0} (c : Cmd B A) {f : A → Cmd B C}
      → ((a : A) → Makes P (f a))
      → Makes P (c >>= f)
  unfolding ◌>>=◌
  Makes-then c k = makes (λ m. After-then (c m) k)

  -- A later command keeps what an earlier one made.
  pub Makes-keep :
      {A C : Type 0} {P : Machine B → Type 0} {c : Cmd B A} {f : A → Cmd B C}
      → Makes P c
      → ((a : A) → Keeps P (f a))
      → Makes P (c >>= f)
  unfolding ◌>>=◌
  Makes-keep {c} h k = makes (λ m. After-bind (c m) (Makes-run h m) k)

  pub Keeps-of_Makes : {A : Type 0} {P : Machine B → Type 0} {c : Cmd B A} → Makes P c → Keeps P c
  Keeps-of_Makes (makes h) = keeps (λ m p. h m)

pub ruleset blocks = (Keeps-bind, Keeps-pure, Keeps-if, Keeps-none, Keeps-skip)
