-- ===== src/Server/Broadcast.antt =====
-- send_msg_everyone and close_socket on the table of sockets.
use lprog_hw.Prelude.{
  ℕ, zero, suc, ◌≡◌, refl, sym, ap, ◌∙◌, ◌≢◌, ◌⊎◌, ◌↔◌, inl, inr, ◌==◌, Bool-cases, ==-sound,
  ==-false, Option, none, some, List, [], ◌∷◌, if◌then◌else◌, arith, get_elem?, Memᴰ,
}
use mathlib.Core.List.Memᴰ.{head, tail}
use lprog_hw.Message.{Message}
use lprog_hw.Server.Handle.{drop_socket, send_all}

-- A socket is connected if a slot of the table has it.
abbrev pub Connected : List (Option ℕ) → ℕ → Type 0
Connected fds fd = (i : ℕ) × (get_elem? fds i ≡ some (some fd))

-- A message was sent to a socket.
abbrev pub Sent : List (ℕ × Message) → ℕ → Message → Type 0
Sent sent fd m = Memᴰ (fd, m) sent

-- Each socket is in one slot at most.
abbrev pub Distinct : List (Option ℕ) → Type 0
Distinct fds =
    (i j fd : ℕ) → get_elem? fds i ≡ some (some fd) → get_elem? fds j ≡ some (some fd) → i ≡ j

keeps :
    (sender : ℕ) (msg : Message) (fds : List (Option ℕ)) (sent : List (ℕ × Message)) (fd : ℕ)
    (m : Message)
    → Sent sent fd m
    → Sent (send_all sender msg fds sent) fd m
unfolding send_all
keeps sender msg [] sent fd m h = h
keeps sender msg (none ∷ fds) sent fd m h = keeps sender msg fds sent fd m h
keeps sender msg (some f ∷ fds) sent fd m h = elim (Bool-cases (f == sender)) [
  | inl e ↦ rw e (keeps sender msg fds sent fd m h)
  | inr e ↦ rw e (keeps sender msg fds ((f, msg) ∷ sent) fd m (tail h))
]

reaches :
    (sender : ℕ) (msg : Message) (fds : List (Option ℕ)) (sent : List (ℕ × Message)) (i fd : ℕ)
    → get_elem? fds i ≡ some (some fd)
    → fd ≢ sender
    → Sent (send_all sender msg fds sent) fd msg
unfolding send_all
reaches sender msg [] sent i fd h ne = cc h
reaches sender msg (none ∷ fds) sent zero fd h ne = cc h
reaches sender msg (none ∷ fds) sent (suc i) fd h ne = reaches sender msg fds sent i fd h ne
reaches sender msg (some f ∷ fds) sent zero fd h ne =
    let e : fd ≡ f = cc h in
    rw e (
      rw (==-false f sender (λ z. ne (e ∙ z)))
        (keeps sender msg fds ((f, msg) ∷ sent) f msg (head refl)))
reaches sender msg (some f ∷ fds) sent (suc i) fd h ne =
    reaches sender msg fds (if f == sender then sent else (f, msg) ∷ sent) i fd h ne

-- What is not sent by this call was sent before.
abbrev FromCall : ℕ → Message → List (Option ℕ) → List (ℕ × Message) → ℕ → Message → Type 0
FromCall sender msg fds sent fd m = Sent sent fd m ⊎ ((m ≡ msg) × (fd ≢ sender) × Connected fds fd)

later :
    (sender : ℕ) (msg : Message) (x : Option ℕ) (fds : List (Option ℕ)) (sent : List (ℕ × Message))
    (fd : ℕ) (m : Message)
    → FromCall sender msg fds sent fd m
    → FromCall sender msg (x ∷ fds) sent fd m
later sender msg x fds sent fd m (inl h) = inl h
later sender msg x fds sent fd m (inr (e, ne, (i, h))) = inr (e, ne, (suc i, h))

now :
    (sender : ℕ) (msg : Message) (f : ℕ) (fds : List (Option ℕ)) (sent : List (ℕ × Message))
    (fd : ℕ) (m : Message)
    → f ≢ sender
    → FromCall sender msg fds ((f, msg) ∷ sent) fd m
    → FromCall sender msg (some f ∷ fds) sent fd m
now sender msg f fds sent fd m ne (inl (head e)) =
    let e' : f ≡ fd = sym (ap (λ (p : ℕ × Message). p.0) e) in
    inr (ap (λ (p : ℕ × Message). p.1) e, (λ z. ne (e' ∙ z)), (0, ap (λ (x : ℕ). some (some x)) e'))
now sender msg f fds sent fd m ne (inl (tail h)) = inl h
now sender msg f fds sent fd m ne (inr (e, ne', (i, h))) = inr (e, ne', (suc i, h))

only :
    (sender : ℕ) (msg : Message) (fds : List (Option ℕ)) (sent : List (ℕ × Message)) (fd : ℕ)
    (m : Message)
    → Sent (send_all sender msg fds sent) fd m
    → FromCall sender msg fds sent fd m
unfolding send_all
only sender msg [] sent fd m h = inl h
only sender msg (none ∷ fds) sent fd m h =
    later sender msg none fds sent fd m (only sender msg fds sent fd m h)
only sender msg (some f ∷ fds) sent fd m h = elim (Bool-cases (f == sender)) [
  | inl e ↦ later sender msg (some f) fds sent fd m (only sender msg fds sent fd m (rw e at h))
  | inr e ↦
      now sender msg f fds sent fd m (λ z. ground arith)
        (only sender msg fds ((f, msg) ∷ sent) fd m (rw e at h))
]

-- A message is among those sent after send_all exactly if it was before, or if it is the one that is
-- sent on, to a connected socket other than the sender's.
pub send_all_lem :
    (sender : ℕ) (msg : Message) (fds : List (Option ℕ)) (sent : List (ℕ × Message)) (fd : ℕ)
    (m : Message)
    → Sent (send_all sender msg fds sent) fd m
      ↔ (Sent sent fd m ⊎ ((m ≡ msg) × (fd ≢ sender) × Connected fds fd))
send_all_lem sender msg fds sent fd m = (only sender msg fds sent fd m, back)
  where
    back :
        (Sent sent fd m ⊎ ((m ≡ msg) × (fd ≢ sender) × Connected fds fd))
        → Sent (send_all sender msg fds sent) fd m
    back (inl h) = keeps sender msg fds sent fd m h
    back (inr (e, ne, (i, h))) = rw e (reaches sender msg fds sent i fd h ne)

Distinct-tail : (x : Option ℕ) (fds : List (Option ℕ)) → Distinct (x ∷ fds) → Distinct fds
Distinct-tail x fds d i j fd h k = omega (arith, d (suc i) (suc j) fd h k)

drop_socket-gone :
    (socket : ℕ) (fds : List (Option ℕ)) (i fd : ℕ)
    → Distinct fds
    → get_elem? (drop_socket socket fds) i ≡ some (some fd)
    → fd ≢ socket
unfolding drop_socket
drop_socket-gone socket [] i fd d h = cc h
drop_socket-gone socket (none ∷ fds) zero fd d h = cc h
drop_socket-gone socket (none ∷ fds) (suc i) fd d h =
    drop_socket-gone socket fds i fd (Distinct-tail none fds d) h
drop_socket-gone socket (some f ∷ fds) zero fd d h = elim (Bool-cases (f == socket)) [
  | inl e ↦ cc (rw e at h)
  | inr e ↦ let h' : f ≡ fd = cc (rw e at h) in (λ z. ground (arith, h', z))
]
drop_socket-gone socket (some f ∷ fds) (suc i) fd d h = elim (Bool-cases (f == socket)) [
  | inl e ↦
      let h' : get_elem? fds i ≡ some (some fd) = rw e at h in
      λ z. omega (
        arith,
        d 0 (suc i) f refl (h' ∙ ap (λ (x : ℕ). some (some x)) (z ∙ sym (==-sound f socket e))),
      )
  | inr e ↦ drop_socket-gone socket fds i fd (Distinct-tail (some f) fds d) (rw e at h)
]

drop_socket-others :
    (socket : ℕ) (fds : List (Option ℕ)) (i fd : ℕ)
    → fd ≢ socket
    → get_elem? fds i ≡ some (some fd)
    → get_elem? (drop_socket socket fds) i ≡ some (some fd)
unfolding drop_socket
drop_socket-others socket [] i fd ne h = h
drop_socket-others socket (none ∷ fds) zero fd ne h = h
drop_socket-others socket (none ∷ fds) (suc i) fd ne h = drop_socket-others socket fds i fd ne h
drop_socket-others socket (some f ∷ fds) zero fd ne h =
    let e : f ≡ fd = cc h in rw (==-false f socket (λ z. ne (sym e ∙ z))) h
drop_socket-others socket (some f ∷ fds) (suc i) fd ne h = elim (Bool-cases (f == socket)) [
  | inl e ↦ rw e h
  | inr e ↦ rw e (drop_socket-others socket fds i fd ne h)
]

pub drop_socket-was :
    (socket : ℕ) (fds : List (Option ℕ)) (i fd : ℕ)
    → get_elem? (drop_socket socket fds) i ≡ some (some fd)
    → get_elem? fds i ≡ some (some fd)
unfolding drop_socket
drop_socket-was socket [] i fd h = h
drop_socket-was socket (none ∷ fds) zero fd h = h
drop_socket-was socket (none ∷ fds) (suc i) fd h = drop_socket-was socket fds i fd h
drop_socket-was socket (some f ∷ fds) zero fd h = elim (Bool-cases (f == socket)) [
  | inl e ↦ cc (rw e at h)
  | inr e ↦ rw e at h
]
drop_socket-was socket (some f ∷ fds) (suc i) fd h = elim (Bool-cases (f == socket)) [
  | inl e ↦ rw e at h
  | inr e ↦ drop_socket-was socket fds i fd (rw e at h)
]

-- Where each socket is in one slot at most, dropping a socket disconnects it and no other.
pub drop_socket_lem :
    (socket : ℕ) (fds : List (Option ℕ)) (fd : ℕ)
    → Distinct fds
    → Connected (drop_socket socket fds) fd ↔ ((fd ≢ socket) × Connected fds fd)
drop_socket_lem socket fds fd d = (there, back)
  where
    there : Connected (drop_socket socket fds) fd → (fd ≢ socket) × Connected fds fd
    there (i, h) = (drop_socket-gone socket fds i fd d h, (i, drop_socket-was socket fds i fd h))

    back : (fd ≢ socket) × Connected fds fd → Connected (drop_socket socket fds) fd
    back (ne, (i, h)) = (i, drop_socket-others socket fds i fd ne h)
