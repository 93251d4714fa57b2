-- ===== src/Buffer/Splitting/Trimming.antt =====
-- buffer_trim: the window loses a line.
use lprog_hw.Prelude.{◌≢◌, ◌==◌, inl, inr, Bool, true, false, Bool-cases, ==-false, if◌then◌else◌}
use lprog_hw.Rope.{Rope}
use lprog_hw.Buffer.State.{up, down, Ptr, null, Line, Buffer}
use lprog_hw.Buffer.Window.{is_above, shrink_top, shrink_bottom, recenter, buffer_trim}
use lprog_hw.Buffer.Edit.{trim_if_seen}
use lprog_hw.Buffer.Returns.{Returns, returns, bind, mono}
use lprog_hw.Buffer.Safe.{At, on_load, Framed, Moved, Moved-refl, Moved-trans}
use lprog_hw.Buffer.Safe.Window.{shrink_bottom-Moved, shrink_top-Moved}
use lprog_hw.Buffer.Safe.Follow.{scroll_if}

module _ {R : Type 0} where
  -- There is a line below the top of the window, and one above its bottom.
  pub record Wide (b : Buffer R) : Type 0 where
    pub below_top : (l : Line R) → At b.cell b.top l → l.next ≢ null
    pub above_bottom : (l : Line R) → At b.cell b.bottom l → l.prev ≢ null

  pub recenter-Moved : {b : Buffer R} → Framed b → Returns (λ _. Moved b) (recenter b)
  unfolding recenter
  recenter-Moved {b} f =
      bind (scroll_if (b.bottom == b.own_curs.own_line) down f) λ _ c m.
        mono (scroll_if (c.top == c.own_curs.own_line) up m.framed) λ _ d n. Moved-trans m n

  trim_top : {b : Buffer R} → Framed b → Wide b → Returns (λ _. Moved b) (shrink_top b)
  trim_top f w =
      let (l, a) = f.top in
      mono (shrink_top-Moved f a (==-false l.next null (w.below_top l a))) λ _ c (m, _). m

  trim_bottom : {b : Buffer R} → Framed b → Wide b → Returns (λ _. Moved b) (shrink_bottom b)
  trim_bottom f w =
      let (l, a) = f.bottom in
      mono (shrink_bottom-Moved f a (==-false l.prev null (w.above_bottom l a))) λ _ c (m, _). m

  trim_either :
      {b : Buffer R} (t u v : Bool)
      → Framed b
      → Wide b
      → Returns
          (λ _. Moved b)
          ((if t
              then (if u then shrink_bottom else shrink_top)
              else (if v then shrink_top else shrink_bottom))
            b)
  trim_either true true v f w = trim_bottom f w
  trim_either true false v f w = trim_top f w
  trim_either false u true f w = trim_top f w
  trim_either false u false f w = trim_bottom f w

  pub buffer_trim-Moved :
      {b : Buffer R} {p : Ptr} {l : Line R}
      → Framed b
      → Wide b
      → At b.cell p l
      → Returns (λ _. Moved b) (buffer_trim p b)
  unfolding buffer_trim
  buffer_trim-Moved {b} {p} {l} f w a = on_load b _ a (elim (Bool-cases l.on_screen) [
    | inl seen ↦ rw seen (
        bind
          (trim_either (is_above l.location) (b.top == b.own_curs.own_line)
            (b.bottom == b.own_curs.own_line) f w)
          λ _ c m. bind (recenter-Moved m.framed) λ _ d n. returns (Moved-trans m n))
    | inr unseen ↦ rw unseen (returns (Moved-refl f))
  ])

module _ {R : Type 0} ⦃rope : Rope R⦄ where
  pub trim_if_seen-Moved :
      {b : Buffer R} {p : Ptr} {l : Line R}
      → Framed b
      → Wide b
      → At b.cell p l
      → Returns (λ _. Moved b) (trim_if_seen p b)
  unfolding trim_if_seen
  trim_if_seen-Moved {b} {p} {l} f w a = on_load b _ a (elim (Bool-cases l.on_screen) [
    | inl seen ↦ rw seen (bind (buffer_trim-Moved f w a) λ _ c m. returns m)
    | inr unseen ↦ rw unseen (returns (Moved-refl f))
  ])
