-- ===== src/Buffer/Merging/Extending.antt =====
-- buffer_extend before a line is deleted, and top and bottom moved away from it.
use lprog_hw.Prelude.{
  ◌≡◌, refl, sym, ◌∙◌, ◌≢◌, ◌==◌, inl, inr, Bool-cases, ==-sound, ==-true, ==-false, if◌then◌else◌,
  Bool, true, false,
}
use lprog_hw.Buffer.State.{Ptr, null, Line, Buffer, skip, modify, set_on_screen, ◌>>◌}
use lprog_hw.Buffer.Window.{is_above, grow_top, grow_bottom, buffer_extend}
use lprog_hw.Buffer.Returns.{Returns, returns, bind, mono}
use lprog_hw.Buffer.Safe.{
  At, Stored, on_load, Framed, Moved, Moved-refl, Moved-trans, set_on_screen-Marked,
}
use lprog_hw.Buffer.Safe.Window.{
  grow_bottom-Moved, grow_top-Moved, set_top-Moved, set_bottom-Moved, Marked-Moved,
}
use lprog_hw.Buffer.Splitting.Trimming.{recenter-Moved}

module _ {R : Type 0} where
  -- If a line above own_curs is deleted, there is a line above the window, or one below it.
  abbrev pub Slack : Buffer R → Ptr → Type 0
  Slack b q =
      (l t m : Line R)
      → At b.cell q l
      → At b.cell b.top t
      → At b.cell b.bottom m
      → is_above l.location ≡ true
      → t.prev ≡ null
      → m.next ≢ null

  extend_above :
      {b : Buffer R} {t : Line R} (u : Bool)
      → Framed b
      → At b.cell b.top t
      → (t.prev == null) ≡ u
      → (t.prev ≡ null → (m : Line R) → At b.cell b.bottom m → m.next ≢ null)
      → Returns (λ _. Moved b) ((if u then grow_bottom else grow_top) b)
  extend_above true f a z s =
      let (m, am) = f.bottom in
      grow_bottom-Moved f am (==-false m.next null (s (==-sound _ _ z) m am))
  extend_above false f a z s = grow_top-Moved f a z

  extend_below :
      {b : Buffer R} {m : Line R} (u : Bool)
      → Framed b
      → At b.cell b.bottom m
      → (m.next == null) ≡ u
      → Returns (λ _. Moved b) ((if u then skip else grow_bottom) b)
  extend_below true f a z = returns (Moved-refl f)
  extend_below false f a z = grow_bottom-Moved f a z

  pub buffer_extend-Moved :
      {b : Buffer R} {q : Ptr} {l : Line R}
      → Framed b
      → At b.cell q l
      → Slack b q
      → Returns (λ _. Moved b) (buffer_extend q b)
  unfolding buffer_extend
  buffer_extend-Moved {b} {q} {l} f a s =
      let (t, at) = f.top in
      let (m, am) = f.bottom in
      on_load b _ a (elim (Bool-cases (is_above l.location)) [
        | inl z ↦ rw z (
            bind
              (on_load b _ at
                (extend_above (t.prev == null) f at refl (λ e m am. s l t m a at am z e)))
              λ _ c k. bind (recenter-Moved k.framed) λ _ d k'. returns (Moved-trans k k'))
        | inr z ↦ rw z (
            bind (on_load b _ am (extend_below (m.next == null) f am refl))
              λ _ c k. bind (recenter-Moved k.framed) λ _ d k'. returns (Moved-trans k k'))
      ])

  -- top is moved away from the line.
  pub leave_top :
      {b : Buffer R} (q pp : Ptr)
      → Framed b
      → Stored b.cell pp
      → pp ≢ q
      → Returns
          (λ _ d. Moved b d × (d.top ≢ q) × (d.bottom ≡ b.bottom))
          ((if q == b.top
              then (do modify (λ b. record b { top = pp }); set_on_screen pp true)
              else skip)
            b)
  leave_top {b} q pp f s ne = elim (Bool-cases (q == b.top)) [
    | inl z ↦
        let k = set_top-Moved f s in
        rw z (
          mono (set_on_screen-Marked true s)
            λ _ d m. (Moved-trans k (Marked-Moved k.framed m), (λ e. ne (sym m.top ∙ e)), m.bottom))
    | inr z ↦ rw z (returns (Moved-refl f, (λ e. cc (==-true q b.top (sym e), z)), refl))
  ]

  pub leave_bottom :
      {b : Buffer R} (q nn : Ptr)
      → Framed b
      → Stored b.cell nn
      → nn ≢ q
      → Returns
          (λ _ d. Moved b d × (d.bottom ≢ q) × (d.top ≡ b.top))
          ((if q == b.bottom
              then (do modify (λ b. record b { bottom = nn }); set_on_screen nn true)
              else skip)
            b)
  leave_bottom {b} q nn f s ne = elim (Bool-cases (q == b.bottom)) [
    | inl z ↦
        let k = set_bottom-Moved f s in
        rw z (
          mono (set_on_screen-Marked true s)
            λ _ d m. (Moved-trans k (Marked-Moved k.framed m), (λ e. ne (sym m.bottom ∙ e)), m.top))
    | inr z ↦ rw z (returns (Moved-refl f, (λ e. cc (==-true q b.bottom (sym e), z)), refl))
  ]
