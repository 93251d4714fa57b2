-- ===== src/Editor/Leaving.antt =====
-- How worker_loop of src/editor.c ends: with the key Escape.
mod Examples
use lprog_hw.Prelude.{
  ℕ, ◌+◌, ◌≡◌, refl, sym, ◌∙◌, ap, subst, ◌<◌, Bool, true, false, Option, none, some, List, [], ◌∷◌,
  ◌++◌, length, if◌then◌else◌,
}
use lprog_hw.Prelude.Int.{pos}
use lprog_hw.Rope.{Rope}
use lprog_hw.Json.{Json}
use lprog_hw.Utilities.Text.{Text}
use lprog_hw.Buffer.State.{Ptr, null, Line, Buffer, Outcome, done, fault, out_of_fuel}
use lprog_hw.Buffer.File.{buffer_free}
use lprog_hw.Buffer.Returns.{Returns, returns}
use lprog_hw.Buffer.Safe.{At}
use lprog_hw.Buffer.Freed.{ToEnd, Freed, buffer_free-Freed}
use lprog_hw.Message.{quit, create_msg}
use lprog_hw.Editor.{Client, Key, key_esc, handle_input}
use lprog_hw.Editor.Worker.{
  Round, receive, typed, type_key, then_type, go_on, work_round, work_rounds, worker_loop,
}

ended :
    {S A : Type 0} {P : A → S → Type 0} {o : Outcome S A}
    → Returns P o
    → (a : A) × (s : S) × (o ≡ done a s) × P a s
ended (returns p) = (_, _, refl, p)

module _ {R : Type 0} (J : Type 0) ⦃rope : Rope R⦄ ⦃json : Json J⦄ where
  go_on-append :
      (fuel : ℕ) (rs ys : List (Round R)) (s' : Client R) (o : Outcome (Client R) Bool)
      → ((s : Client R)
          → work_rounds J fuel rs s ≡ done false s'
          → work_rounds J fuel (rs ++ ys) s ≡ work_rounds J fuel ys s')
      → go_on J (work_rounds J fuel rs) o ≡ done false s'
      → go_on J (work_rounds J fuel (rs ++ ys)) o ≡ work_rounds J fuel ys s'
  go_on-append fuel rs ys s' (done true s) k e = cc e
  go_on-append fuel rs ys s' (done false s) k e = k s e
  go_on-append fuel rs ys s' fault k e = cc e
  go_on-append fuel rs ys s' out_of_fuel k e = cc e

  -- The loop goes on from where some rounds left it.
  work_rounds-append :
      (fuel : ℕ) (rs ys : List (Round R)) (s s' : Client R)
      → work_rounds J fuel rs s ≡ done false s'
      → work_rounds J fuel (rs ++ ys) s ≡ work_rounds J fuel ys s'
  unfolding work_rounds
  work_rounds-append fuel [] ys s s' e =
      let e' : s ≡ s' = cc e in ap (λ s. work_rounds J fuel ys s) e'
  work_rounds-append fuel (r ∷ rs) ys s s' e =
      go_on-append fuel rs ys s' (work_round J fuel r s)
        (λ s1 e1. work_rounds-append fuel rs ys s1 s' e1) e

  -- handle_input of Escape
  escape :
      (s : Client R) (b : Buffer R) (qs : List Ptr)
      → s.b ≡ some b
      → ToEnd b.cell b.first qs
      → ((l : Line R) → At b.cell b.first l → l.prev ≡ null)
      → length qs < b.brk
      → (c : Client R) × (handle_input key_esc s ≡ done tt c)
        × (c.sent ≡ create_msg quit s.user_id (pos b.id) (pos b.ver) none ∷ s.sent)
        × ((d : Buffer R) × (c.b ≡ some d) × Freed b qs d)
  unfolding handle_input
  escape s b qs e w top lt =
      let (_, d, run, freed) =
        ended (buffer_free-Freed (record b { ver = b.ver + 1 }) qs w top lt) in
      (
        record s {
          b = some d;
          sent = create_msg quit s.user_id (pos b.id) (pos b.ver) none ∷ s.sent;
        },
        rw (e, run) refl,
        refl,
        (d, refl, freed),
      )

  type_key-escape :
      (k : Option Key) (s c : Client R)
      → k ≡ some key_esc
      → handle_input key_esc s ≡ done tt c
      → type_key J k s ≡ done true c
  type_key-escape k s c e run = ap (λ k. type_key J k s) e ∙ ap (typed key_esc) run

  receive-silent :
      (fuel : ℕ) (r : Round R) (s : Client R) → r.received ≡ none → receive J fuel r s ≡ done tt s
  receive-silent fuel r s e = rw e refl

  work_round-escape :
      (fuel : ℕ) (r : Round R) (s c : Client R)
      → r.received ≡ none
      → r.typed ≡ some key_esc
      → handle_input key_esc s ≡ done tt c
      → work_round J fuel r s ≡ done true c
  unfolding work_round
  work_round-escape fuel r s c silent esc run =
      ap (then_type J r.typed) (receive-silent fuel r s silent)
      ∙ type_key-escape r.typed s c esc run

  -- If worker_loop has not ended before, and in the next round no message comes and Escape is typed,
  -- while the lines of the buffer are a chain from first to NULL and the first has none before it: it
  -- ends then, the last message sent is QUIT, and each of the lines is freed once.
  pub worker_loop_lem :
      (fuel : ℕ) (name pass : Text) (rs rest : List (Round R)) (r : Round R) (s s' : Client R)
      (b : Buffer R) (qs : List Ptr)
      → worker_loop J fuel name pass rs s ≡ done false s'
      → r.received ≡ none
      → r.typed ≡ some key_esc
      → s'.b ≡ some b
      → ToEnd b.cell b.first qs
      → ((l : Line R) → At b.cell b.first l → l.prev ≡ null)
      → length qs < b.brk
      → (c : Client R) × (worker_loop J fuel name pass (rs ++ r ∷ rest) s ≡ done true c)
        × (c.sent ≡ create_msg quit s'.user_id (pos b.id) (pos b.ver) none ∷ s'.sent)
        × ((d : Buffer R) × (c.b ≡ some d) × Freed b qs d)
  unfolding worker_loop
  worker_loop_lem fuel name pass rs rest r s s' b qs run silent esc here w top lt =
      let (c, e, sent, freed) = escape s' b qs here w top lt in
      (
        c,
        work_rounds-append fuel rs (r ∷ rest) _ s' run
            ∙ ap (go_on J (work_rounds J fuel rest)) (work_round-escape fuel r s' c silent esc e),
        sent,
        freed,
      )
