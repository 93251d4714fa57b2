-- ===== src/Buffer/Merging/Following.antt =====
-- join_line once the text is appended: no other cursor follows, and the line is deleted.
use lprog_hw.Prelude.{
  ℕ, ◌≡◌, refl, sym, ◌∙◌, ap, subst, ◌≢◌, ◌==◌, not, ◌&&◌, ◌⊎◌, inl, inr, Bool-cases, ==-sound,
  ==-false, some, List, true, false, get_elem?,
}
use lprog_hw.Rope.{Rope}
use lprog_hw.Buffer.State.{
  Ptr, null, Line, Cursor, CursorRef, own, peer, same_ref, Buffer, done, max_cursor_num, load,
  load_cursor, skip, ◌>>=◌, ◌>>◌,
}
use lprog_hw.Buffer.Edit.{for_peers, follow_join, buffer_deletel}
use lprog_hw.Buffer.Returns.{Returns, returns, bind, on_eq}
use lprog_hw.Buffer.Safe.{load-At, on_load, Safe}
use lprog_hw.Buffer.Safe.Peers.{Names, load_cursor-Names, on_cursor}
use lprog_hw.Buffer.Document.{Place, Document, bytes_of, eq_of_At, PadFits}
use lprog_hw.Buffer.Splitting.Placed.{AllCursors}
use lprog_hw.Buffer.Splitting.Cut.{for_peers-skip}
use lprog_hw.Buffer.Merging.Saved.{without, buffer_deletel-Document}
use lprog_hw.Buffer.Merging.Arriving.{Stood}

module _ {R : Type 0} where
  Names-same :
      (e : Buffer R) (r o : CursorRef) {c d : Cursor}
      → same_ref r o ≡ true
      → Names e r c
      → Names e o d
      → d ≡ c
  Names-same e own own z n k = sym k ∙ n
  Names-same e own (peer j) z n k = cc z
  Names-same e (peer i) own z n k = cc z
  Names-same e (peer i) (peer j) {c} {d} z n k =
      let n' : get_elem? e.peer_curss j ≡ some (some c) =
        subst (λ i. get_elem? e.peer_curss i ≡ some (some c)) (==-sound i j z) n in
      cc (n', k)

module _ {R : Type 0} ⦃rope : Rope R⦄ where
  -- The cursor stands in the line before.
  module _ {e : Buffer R} {r : CursorRef} (c : Cursor) (n : ℕ) {q : Ptr} {l m : Line R}
      {xs : List (Place R)} (h : Stood e r (record c { own_line = l.prev; pos = n }) q l m xs) where
    pub has_prev : l.prev ≢ null
    has_prev z = h.before.ne_null z

    pub leads : m.next ≡ q
    leads =
        let (k, ak, e) = h.safe.framed.linked.back q l h.here has_prev in
        ap (λ (l : Line R). l.next) (eq_of_At h.before ak) ∙ e

    -- No other cursor is in the line that goes.
    follow_join-skip : (o : CursorRef) (d : Cursor) → Names e o d → follow_join r o e ≡ done tt e
    unfolding follow_join
    follow_join-skip o d k =
        rw
          (
            load_cursor-Names e r (record c { own_line = l.prev; pos = n }) h.named,
            load-At e h.before,
            load_cursor-Names e o d k,
            stays (Bool-cases (same_ref r o)),
          )
          refl
      where
        stays :
            ((same_ref r o) ≡ true) ⊎ ((same_ref r o) ≡ false)
            → (not (same_ref r o) && (m.next == d.own_line)) ≡ false
        stays (inl z) = rw z refl
        stays (inr z) =
            rw (z, ==-false m.next d.own_line (λ v. h.only o d k z (sym v ∙ leads))) refl

    nobody_in : AllCursors e (λ d. d.own_line ≢ q)
    nobody_in = (apart own e.own_curs refl, λ i d k. apart (peer i) d k)
      where
        apart : (o : CursorRef) (d : Cursor) → Names e o d → d.own_line ≢ q
        apart o d k = elim (Bool-cases (same_ref r o)) [
          | inl z ↦ λ v.
              prev_apart (sym (ap (λ (c : Cursor). c.own_line) (Names-same e r o z h.named k)) ∙ v)
          | inr z ↦ h.only o d k z
        ]
          where
            prev_apart : l.prev ≢ q
            prev_apart z = h.safe.framed.linked.no_loop l.prev m h.before (leads ∙ sym z)

    pub finish_join :
        l.next ≢ null
        → Returns
            (λ _ d.
              Safe d
              × (d.peer_curss ≡ e.peer_curss)
              × ((ys : List (Place R)) × Document d ys
                  × (bytes_of ys ≡ bytes_of (without q xs))
                  × PadFits d.cell))
            ((do
              follow_join r own
              for_peers max_cursor_num 0 λ i d. follow_join r (peer i)
              c ← load_cursor r
              l ← load c.own_line
              buffer_deletel l.next
              skip)
              e)
    finish_join has_next = on_eq _ (follow_join-skip own e.own_curs refl) (
        on_eq _
          (for_peers-skip e (λ i d. follow_join r (peer i)) (λ i d k. follow_join-skip (peer i) d k)
            max_cursor_num 0)
          (on_cursor e r (record c { own_line = l.prev; pos = n }) _ h.named
            (on_load e _ h.before (
              bind
                (subst
                  (λ p.
                    Returns
                      (λ _ d.
                        Safe d
                        × (d.peer_curss ≡ e.peer_curss)
                        × ((ys : List (Place R)) × Document d ys
                            × (bytes_of ys ≡ bytes_of (without q xs))
                            × PadFits d.cell))
                      (buffer_deletel p e))
                  (sym leads)
                  (buffer_deletel-Document e xs h.safe h.doc h.here h.not_first h.among h.fits
                    has_next nobody_in h.slack))
                λ _ d k. returns k))))
