-- ===== src/Buffer/Returns.antt =====
-- Total correctness of a run of src/buffer.c's functions: no fault, enough fuel, a postcondition.
use lprog_hw.Prelude.{◌≡◌}
use lprog_hw.Buffer.State.{Buffer, Outcome, done, M, and_then}

pub data Returns {S A : Type 0} (P : A → S → Type 0) : Outcome S A → Type 0 where
  returns : {a : A} {s : S} → P a s → Returns P (done a s)

module _ {R A : Type 0} {P : A → Buffer R → Type 0} where
  pub bind :
      {B : Type 0} {Q : B → Buffer R → Type 0} {r : Outcome (Buffer R) A} {k : A → M R B}
      → Returns P r
      → ((a : A) (b : Buffer R) → P a b → Returns Q (k a b))
      → Returns Q (and_then r k)
  bind (returns p) next = next _ _ p

pub mono :
    {S A : Type 0} {P Q : A → S → Type 0} {r : Outcome S A}
    → Returns P r
    → ((a : A) (s : S) → P a s → Q a s)
    → Returns Q r
mono (returns p) weaken = returns (weaken _ _ p)

module _ {R A : Type 0} where
  -- The rule for a call whose result is known.
  pub on_eq :
      {B : Type 0} {Q : B → Buffer R → Type 0} {r : Outcome (Buffer R) A} {a : A} {b : Buffer R}
      (k : A → M R B)
      → r ≡ done a b
      → Returns Q (k a b)
      → Returns Q (and_then r k)
  on_eq k e h = rw e h
