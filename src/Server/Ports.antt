-- ===== src/Server/Ports.antt =====
-- The search of get_worker for free ports.
use lprog_hw.Prelude.{
  ℕ, zero, suc, ◌+◌, ◌≤◌, ◌<◌, ◌≡◌, refl, subst, inl, inr, Bool, true, false, Bool-cases, ◌==◌,
  ==-true, ltb, ltb→lt, Option, none, some, arith, get_elem?, set,
}
use lprog_hw.Prelude.Int.{pos}
use lprog_hw.Buffer.State.{done}
use lprog_hw.Server.State.{Env, Worker, Server}
use lprog_hw.Server.Keeps.{and_then-eq}
use lprog_hw.Server.Handle.{next_port, take_port, get_entry, get_worker}

-- What a search of `k` ports from `h` on finds: the first free one.
pub data Search (free : ℕ → Bool) (k h : ℕ) : Option ℕ → Type 0 where
  at_port :
      (p : ℕ)
      → h ≤ p
      → p < h + k
      → free p ≡ true
      → ((q : ℕ) → h ≤ q → q < p → free q ≡ false)
      → Search free k h (some p)
  all_busy : ((q : ℕ) → h ≤ q → q < h + k → free q ≡ false) → Search free k h none

pub next_port-Search : (free : ℕ → Bool) (k h : ℕ) → Search free k h (next_port free k h)
unfolding next_port
next_port-Search free zero h = all_busy (λ q le lt. absurd (omega arith))
next_port-Search free (suc k) h = elim (Bool-cases (free h)) [
  | inl e ↦ rw e (at_port h (omega arith) (omega arith) e (λ q le lt. absurd (omega arith)))
  | inr e ↦ rw e (further (next_port free k (h + 1)) (next_port-Search free k (h + 1)) e)
]
  where
    further : (o : Option ℕ) → Search free k (h + 1) o → free h ≡ false → Search free (suc k) h o
    further o (at_port p le lt f g) e = at_port p (omega arith) (omega arith) f (λ q le' lt'.
        elim (Bool-cases (h == q)) [
          | inl z ↦ let z' : h ≡ q = ground arith in subst (λ q. free q ≡ false) z' e
          | inr z ↦ g q (ground arith) lt'
        ])
    further o (all_busy g) e = all_busy (λ q le' lt'. elim (Bool-cases (h == q)) [
      | inl z ↦ let z' : h ≡ q = ground arith in subst (λ q. free q ≡ false) z' e
      | inr z ↦ g q (ground arith) (omega arith)
    ])

-- The ports from `h` to before `p` are busy, and `p` is not: the first that get_worker takes.
abbrev pub FirstFree : (ℕ → Bool) → ℕ → ℕ → Type 0
FirstFree free h p = (h ≤ p) × (free p ≡ true) × ((q : ℕ) → h ≤ q → q < p → free q ≡ false)

module _ {R : Type 0} where
  -- Where there is a free port within the fuel, take_port takes the first.
  take_port-eq :
      (env : Env) (fuel q : ℕ) (s : Server R)
      → env.port_free q ≡ true
      → s.hport ≤ q
      → q < s.hport + fuel
      → (p : ℕ) × (take_port env fuel s ≡ done p (record s { hport = p + 1 }))
        × FirstFree env.port_free s.hport p
        × (p ≤ q)
  unfolding take_port
  take_port-eq env fuel q s f le lt =
      taken (next_port env.port_free fuel s.hport) refl
        (next_port-Search env.port_free fuel s.hport)
    where
      first : (p : ℕ) → ((q : ℕ) → s.hport ≤ q → q < p → env.port_free q ≡ false) → p ≤ q
      first p g = elim (Bool-cases (ltb q p)) [
        | inl z ↦ absurd (cc (f, g q le (ltb→lt q p z)))
        | inr z ↦ ground arith
      ]

      taken :
          (o : Option ℕ)
          → next_port env.port_free fuel s.hport ≡ o
          → Search env.port_free fuel s.hport o
          → (p : ℕ) × (take_port env fuel s ≡ done p (record s { hport = p + 1 }))
            × FirstFree env.port_free s.hport p
            × (p ≤ q)
      taken o e (at_port p le' lt' f' g) = (p, rw (e, take_port) refl, (le', f', g), first p g)
      taken o e (all_busy g) = absurd (cc (f, g q le lt))

  pub get_entry-eq :
      (i : ℕ) (w : Worker) (s : Server R)
      → get_elem? s.workers i ≡ some w
      → get_entry (pos i) s ≡ done w s
  unfolding get_entry
  get_entry-eq i w s e = rw (e, get_entry) refl

  -- For a document without a worker, where two free ports are within the fuel: get_worker ends and
  -- returns the second port that is free from hport on, which becomes the port of the document's worker,
  -- with the process that fork gives; hport is the port after it. It changes nothing else.
  pub get_worker_lem :
      (env : Env) (fuel i p q : ℕ) (w : Worker) (s : Server R)
      → get_elem? s.workers i ≡ some w
      → w.port ≡ 0
      → env.port_free p ≡ true
      → env.port_free q ≡ true
      → s.hport ≤ p
      → p < q
      → q < s.hport + fuel
      → (lp pp : ℕ) × (get_worker env fuel (pos i) s
          ≡ done pp (record s {
            hport = pp + 1;
            workers = set s.workers i (record { port = pp; pid = env.fork });
          }))
        × FirstFree env.port_free s.hport lp
        × FirstFree env.port_free (lp + 1) pp
        × (pp ≤ q)
  unfolding get_worker
  get_worker_lem env fuel i p q w s e z fp fq le lt lim =
      let (lp, e1, first, le1) = take_port-eq env fuel p s fp le (omega arith) in
      let (pp, e2, second, le2) =
        take_port-eq env fuel q (record s { hport = lp + 1 }) fq (omega arith)
          (omega (arith, first.0)) in
      (
        lp,
        pp,
        and_then-eq _ (get_entry-eq i w s e)
            (rw (==-true w.port 0 z) (and_then-eq _ e1 (and_then-eq _ e2 refl))),
        first,
        second,
        le2,
      )
