-- ===== src/Server/Tables.antt =====
-- The tables of a server process, and what changes them: sockets, logins, workers and ports.
pub mod Steps
pub mod Rounds
use lprog_hw.Prelude.{
  ℕ, zero, suc, ◌+◌, ◌≤◌, ◌<◌, ◌≡◌, refl, sym, ap, ◌∙◌, subst, ◌≢◌, ◌⊎◌, inl, inr, Bool, true,
  false, Bool-cases, ◌==◌, ==-false, Option, none, some, List, [], ◌∷◌, arith, get_elem?, set,
  length, length-set, get_elem?-set_cases, if◌then◌else◌,
}
use lprog_hw.Server.State.{Worker, Server, max_clients, max_workers}
use lprog_hw.Server.Handle.{drop_socket, add_socket}
use lprog_hw.Server.Broadcast.{Connected, Distinct, drop_socket-was}

-- The arrays have the sizes they were declared with; a socket is in one slot at most; the ports of the
-- workers are at most hport, and no two entries have the same port, but for 0, which is none.
pub record Tables (poll_list : List (Option ℕ)) (clients : List Bool) (workers : List Worker)
    (hport : ℕ) : Type 0 where
  pub slots : length poll_list ≡ max_clients
  pub distinct : Distinct poll_list
  pub logins : length clients ≡ suc max_clients
  pub entries : length workers ≡ suc max_workers
  pub below : (i : ℕ) (w : Worker) → get_elem? workers i ≡ some w → w.port ≤ hport
  pub ports :
      (i j : ℕ) (w v : Worker)
      → get_elem? workers i ≡ some w
      → get_elem? workers j ≡ some v
      → w.port ≢ 0
      → w.port ≡ v.port
      → i ≡ j

abbrev pub WellFormed : {R : Type 0} → Server R → Type 0
WellFormed s = Tables s.poll_list s.clients s.workers s.hport

length-drop_socket :
    (socket : ℕ) (fds : List (Option ℕ)) → length (drop_socket socket fds) ≡ length fds
unfolding drop_socket
length-drop_socket socket [] = refl
length-drop_socket socket (none ∷ fds) = ap suc (length-drop_socket socket fds)
length-drop_socket socket (some fd ∷ fds) = elim (Bool-cases (fd == socket)) [
  | inl e ↦ rw e refl
  | inr e ↦ rw e (ap suc (length-drop_socket socket fds))
]

length-add_socket :
    (socket : ℕ) (fds : List (Option ℕ)) → length (add_socket socket fds) ≡ length fds
unfolding add_socket
length-add_socket socket [] = refl
length-add_socket socket (none ∷ fds) = refl
length-add_socket socket (some fd ∷ fds) = ap suc (length-add_socket socket fds)

-- A slot of the table after add_socket had its socket before, or it is the one slot that the socket
-- came to.
Added : ℕ → List (Option ℕ) → Type 0
Added socket fds =
    (at : ℕ) × ((i fd : ℕ)
      → get_elem? (add_socket socket fds) i ≡ some (some fd)
      → (get_elem? fds i ≡ some (some fd)) ⊎ ((i ≡ at) × (fd ≡ socket)))

add_socket-Added : (socket : ℕ) (fds : List (Option ℕ)) → Added socket fds
unfolding add_socket Added
add_socket-Added socket [] = (0, λ i fd h. inl h)
add_socket-Added socket (none ∷ fds) = (0, there)
  where
    there :
        (i fd : ℕ)
        → get_elem? (some socket ∷ fds) i ≡ some (some fd)
        → (get_elem? (none ∷ fds) i ≡ some (some fd)) ⊎ ((i ≡ 0) × (fd ≡ socket))
    there zero fd h = inr (refl, cc h)
    there (suc i) fd h = inl h
add_socket-Added socket (some f ∷ fds) =
    let (at, g) = add_socket-Added socket fds in (suc at, later at g)
  where
    later :
        (at : ℕ)
        → ((i fd : ℕ)
            → get_elem? (add_socket socket fds) i ≡ some (some fd)
            → (get_elem? fds i ≡ some (some fd)) ⊎ ((i ≡ at) × (fd ≡ socket)))
        → (i fd : ℕ) → get_elem? (some f ∷ add_socket socket fds) i ≡ some (some fd)
        → (get_elem? (some f ∷ fds) i ≡ some (some fd)) ⊎ ((i ≡ suc at) × (fd ≡ socket))
    later at g zero fd h = inl h
    later at g (suc i) fd h = elim (g i fd h) [
      | inl old ↦ inl old
      | inr (e, e') ↦ inr (ap suc e, e')
    ]

add_socket-Distinct :
    (socket : ℕ) (fds : List (Option ℕ))
    → Distinct fds
    → ¬ Connected fds socket
    → Distinct (add_socket socket fds)
unfolding Added
add_socket-Distinct socket fds d fresh i j fd h k =
    let (at, g) = add_socket-Added socket fds in
    elim (g i fd h) [
      | inl old ↦ elim (g j fd k) [
        | inl old' ↦ d i j fd old old'
        | inr (e, e') ↦ absurd (fresh (i, old ∙ ap (λ (x : ℕ). some (some x)) e'))
      ]
      | inr (e, e') ↦ elim (g j fd k) [
        | inl old' ↦ absurd (fresh (j, old' ∙ ap (λ (x : ℕ). some (some x)) e'))
        | inr (z, z') ↦ e ∙ sym z
      ]
    ]

module _ {fds : List (Option ℕ)} {cs : List Bool} {ws : List Worker} {hport : ℕ}
    (t : Tables fds cs ws hport) where
  pub Tables-drop_socket : (socket : ℕ) → Tables (drop_socket socket fds) cs ws hport
  Tables-drop_socket socket = record {
    slots = length-drop_socket socket fds ∙ t.slots;
    distinct = λ i j fd h k.
        t.distinct i j fd (drop_socket-was socket fds i fd h) (drop_socket-was socket fds j fd k);
    logins = t.logins;
    entries = t.entries;
    below = t.below;
    ports = t.ports;
  }

  pub Tables-add_socket :
      (socket : ℕ) → ¬ Connected fds socket → Tables (add_socket socket fds) cs ws hport
  Tables-add_socket socket fresh = record {
    slots = length-add_socket socket fds ∙ t.slots;
    distinct = add_socket-Distinct socket fds t.distinct fresh;
    logins = t.logins;
    entries = t.entries;
    below = t.below;
    ports = t.ports;
  }

  pub Tables-hang_up : (n : ℕ) → Tables (set fds n none) cs ws hport
  Tables-hang_up n = record {
    slots = length-set fds n none ∙ t.slots;
    distinct = λ i j fd h k. t.distinct i j fd (was i fd h) (was j fd k);
    logins = t.logins;
    entries = t.entries;
    below = t.below;
    ports = t.ports;
  }
    where
      was :
          (i fd : ℕ)
          → get_elem? (set fds n none) i ≡ some (some fd)
          → get_elem? fds i ≡ some (some fd)
      was i fd h = elim (get_elem?-set_cases fds n i none h) [ inl (e, z) ↦ cc z | inr old ↦ old ]

  pub Tables-login : (i : ℕ) (v : Bool) → Tables fds (set cs i v) ws hport
  Tables-login i v = record {
    slots = t.slots;
    distinct = t.distinct;
    logins = length-set cs i v ∙ t.logins;
    entries = t.entries;
    below = t.below;
    ports = t.ports;
  }

  pub Tables-hport : (p : ℕ) → hport ≤ p → Tables fds cs ws p
  Tables-hport p le = record {
    slots = t.slots;
    distinct = t.distinct;
    logins = t.logins;
    entries = t.entries;
    below = λ i w e. omega (arith, t.below i w e);
    ports = t.ports;
  }

  -- The entry of a document gets a port above the ones handed out.
  pub Tables-worker :
      (i port pid : ℕ)
      → hport < port
      → Tables fds cs (set ws i (record { port = port; pid = pid })) port
  Tables-worker i port pid lt = record {
    slots = t.slots;
    distinct = t.distinct;
    logins = t.logins;
    entries = length-set ws i new ∙ t.entries;
    below = λ j w e. elim (entry j w e) [
      | inl (_, z) ↦ omega (arith, ap (λ (x : Worker). x.port) z)
      | inr old ↦ omega (arith, t.below j w old)
    ];
    ports = λ j k w v h g ne e. elim (entry j w h) [
      | inl (p, z) ↦ elim (entry k v g) [
        | inl (q, y) ↦ sym p ∙ q
        | inr old ↦ absurd (omega (arith, ap (λ (x : Worker). x.port) z, e, t.below k v old))
      ]
      | inr old ↦ elim (entry k v g) [
        | inl (q, y) ↦ absurd (omega (arith, ap (λ (x : Worker). x.port) y, e, t.below j w old))
        | inr old' ↦ t.ports j k w v old old' ne e
      ]
    ];
  }
    where
      new : Worker
      new = record { port = port; pid = pid }

      entry :
          (j : ℕ) (w : Worker)
          → get_elem? (set ws i new) j ≡ some w
          → ((i ≡ j) × (new ≡ w)) ⊎ (get_elem? ws j ≡ some w)
      entry j w e = elim (get_elem?-set_cases ws i j new e) [
        | inl (p, z) ↦ inl (p, cc z)
        | inr old ↦ inr old
      ]
