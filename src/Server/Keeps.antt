-- ===== src/Server/Keeps.antt =====
-- What a step of a server process keeps, whatever it does: the rules for its parts.
use lprog_hw.Prelude.{◌≡◌, subst, Bool, true, false, Option, none, some, if◌then◌else◌}
use lprog_hw.Buffer.State.{Buffer, Outcome, done, fault, out_of_fuel}
use lprog_hw.Server.State.{Server, S, and_then, ◌>>=◌, ◌>>◌, deref, keep_buffer, on_buffer}

module _ {R : Type 0} where
  pub and_then-eq :
      {A B : Type 0} {o : Outcome (Server R) A} {a : A} {s : Server R} {p : Outcome (Server R) B}
      (k : A → S R B)
      → o ≡ done a s
      → k a s ≡ p
      → and_then o k ≡ p
  and_then-eq k e h = rw e h

  -- What holds of the result and the state, if it comes to one.
  pub data IfDone {A : Type 0} (Q : A → Server R → Type 0) : Outcome (Server R) A → Type 0 where
    if_done : {a : A} {s : Server R} → Q a s → IfDone Q (done a s)
    if_fault : IfDone Q fault
    if_fuel : IfDone Q out_of_fuel

  -- Where `P` holds before a step, it does after it.
  abbrev pub Keeps : {A : Type 0} → (Server R → Type 0) → S R A → Type 0
  Keeps P m = (s : Server R) → P s → IfDone (λ _. P) (m s)

  pub IfDone-then :
      {A B : Type 0} {Q : A → Server R → Type 0} {T : B → Server R → Type 0}
      {o : Outcome (Server R) A} (k : A → S R B)
      → IfDone Q o
      → ((a : A) (s : Server R) → Q a s → IfDone T (k a s))
      → IfDone T (and_then o k)
  IfDone-then k (if_done h) f = f _ _ h
  IfDone-then k if_fault f = if_fault
  IfDone-then k if_fuel f = if_fuel

  pub IfDone-eq :
      {A : Type 0} {Q : A → Server R → Type 0} {o : Outcome (Server R) A} {a : A} {s : Server R}
      → IfDone Q o
      → o ≡ done a s
      → Q a s
  IfDone-eq {A} {Q} h e = at_done (subst (IfDone Q) e h)
    where
      at_done : {a : A} {s : Server R} → IfDone Q (done a s) → Q a s
      at_done (if_done h) = h

  module _ {P : Server R → Type 0} where
    pub Keeps-bind :
        {A B : Type 0} (m : S R A) (k : A → S R B)
        → Keeps P m
        → ((a : A) → Keeps P (k a))
        → Keeps P (m >>= k)
    Keeps-bind m k h f s p = IfDone-then k (h s p) f

    pub Keeps-then :
        {A B : Type 0} (m : S R A) (k : S R B) → Keeps P m → Keeps P k → Keeps P (m >> k)
    Keeps-then m k h f s p = IfDone-then (λ _. k) (h s p) λ _. f

    pub Keeps-deref : {A : Type 0} (o : Option A) → Keeps P (deref o)
    Keeps-deref none s p = if_fault
    Keeps-deref (some a) s p = if_done p

    pub Keeps-if :
        {A : Type 0} (v : Bool) (m k : S R A) → Keeps P m → Keeps P k → Keeps P (if v then m else k)
    Keeps-if true m k h f = h
    Keeps-if false m k h f = f

    kept_buffer :
        {A : Type 0} (s : Server R) (o : Outcome (Buffer R) A)
        → ((b : Buffer R) → P (record s { buf = some b }))
        → IfDone (λ _. P) (keep_buffer s o)
    kept_buffer s (done a b) h = if_done (h b)
    kept_buffer s fault h = if_fault
    kept_buffer s out_of_fuel h = if_fuel

    pub Keeps-on_buffer :
        {A : Type 0} (m : Buffer R → Outcome (Buffer R) A)
        → ((s : Server R) (b : Buffer R) → P s → P (record s { buf = some b }))
        → Keeps P (on_buffer m)
    unfolding on_buffer
    Keeps-on_buffer m h s p =
        elim s.buf
          as (λ o. IfDone (λ _. P) (elim o [ none ↦ fault | some b ↦ keep_buffer s (m b) ])) [
            | none ↦ if_fault
            | some b ↦ kept_buffer s (m b) (λ b. h s b p)
          ]
