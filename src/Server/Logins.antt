-- ===== src/Server/Logins.antt =====
-- Who is logged in: what a message changes in the array clients.
use lprog_hw.Prelude.{
  ℕ, ◌+◌, ◌==◌, ◌≡◌, refl, ap, ◌∙◌, ◌⊎◌, inl, inr, Bool, true, false, Option, none, some, get_elem?,
  set, get_elem?-set_cases,
}
use lprog_hw.Prelude.Int.{ℤ, pos, negsuc, is_nonneg}
use lprog_hw.Rope.{Rope}
use lprog_hw.Json.{Json}
use lprog_hw.Buffer.State.{done, fault, out_of_fuel}
use lprog_hw.Utilities.Users.{validate_user}
use lprog_hw.Message.{Message, login, type_of}
use lprog_hw.Server.State.{Env, Worker, Server, deref, set_client}
use lprog_hw.Server.Handle.{
  take_port, get_entry, set_entry, get_worker, next_port, handle_login, handle_msg,
}
use lprog_hw.Server.Keeps.{
  IfDone, if_done, if_fault, if_fuel, Keeps, IfDone-then, IfDone-eq, Keeps-bind, Keeps-then,
  Keeps-if,
}
use lprog_hw.Server.Closed.{Closed, kept_send_ok, kept_send_failed, kept_handle_msg}

module _ {R : Type 0} where
  -- clients[i] is set.
  abbrev pub LoggedIn : Server R → ℕ → Type 0
  LoggedIn s i = get_elem? s.clients i ≡ some true

  -- The message is a LOGIN with the name and the password of the account with the number `i`.
  abbrev pub ProvesId : Env → Message → Server R → ℕ → Type 0
  ProvesId env msg s i =
      (type_of msg.type ≡ some login)
      × (validate_user (env.name msg.payload) (env.pass msg.payload) s.userdata ≡ some (pos i))

  -- Whoever is logged in was so in `s`, or has the account that the message proves.
  abbrev OnlyFrom : Env → Message → Server R → Server R → Type 0
  OnlyFrom env msg s t = (i : ℕ) → LoggedIn t i → LoggedIn s i ⊎ ProvesId env msg s i

  module _ (env : Env) (msg : Message) (s : Server R) where
    took : (e : Env) (fuel : ℕ) → Keeps (OnlyFrom env msg s) (take_port e fuel)
    unfolding take_port
    took e fuel t g =
        elim (next_port e.port_free fuel t.hport)
          as (λ o.
            IfDone (λ _. OnlyFrom env msg s)
              (elim o [ none ↦ out_of_fuel | some p ↦ done p (record t { hport = p + 1 }) ])) [
                | none ↦ if_fuel
                | some p ↦ if_done g
              ]

    kept_entry : (file_id : ℤ) → Keeps (OnlyFrom env msg s) (get_entry file_id)
    unfolding get_entry
    kept_entry (pos i) t g =
        elim (get_elem? t.workers i)
          as (λ o. IfDone (λ _. OnlyFrom env msg s) (elim o [ none ↦ fault | some w ↦ done w t ])) [
            | none ↦ if_fault
            | some v ↦ if_done g
          ]
    kept_entry (negsuc i) t g = if_fault

    kept_set_entry : (file_id : ℤ) (w : Worker) → Keeps (OnlyFrom env msg s) (set_entry file_id w)
    kept_set_entry (pos i) w t g = if_done g
    kept_set_entry (negsuc i) w t g = if_fault

    kept_get_worker :
        (e : Env) (fuel : ℕ) (file_id : ℤ) → Keeps (OnlyFrom env msg s) (get_worker e fuel file_id)
    unfolding get_worker
    kept_get_worker e fuel file_id = Keeps-bind _ _ (kept_entry file_id) λ w.
        Keeps-if (w.port == 0) _ _
          (Keeps-bind _ _ (took e fuel) λ lp.
            Keeps-bind _ _ (took e fuel)
              λ pp. Keeps-then _ _ (kept_set_entry file_id _) (λ t g. if_done g))
          (λ t g. if_done g)

    -- A write of `v` where the id is proved, or where `v` is false.
    kept_set_client :
        (id : ℤ) (v : Bool)
        → ((i : ℕ) → id ≡ pos i → v ≡ true → ProvesId env msg s i)
        → Keeps (OnlyFrom env msg s) (set_client id v)
    unfolding set_client
    kept_set_client (pos k) v ok t g =
        elim (get_elem? t.clients k)
          as (λ o.
            IfDone (λ _. OnlyFrom env msg s)
              (elim o [
                | none ↦ fault
                | some _ ↦ done tt (record t { clients = set t.clients k v })
              ])) [
                | none ↦ if_fault
                | some u ↦ if_done (λ (i : ℕ) (h : get_elem? (set t.clients k v) i ≡ some true).
                    elim (get_elem?-set_cases t.clients k i v h) [
                      | inl (e, z) ↦ let z' : v ≡ true = cc z in inr (ok i (ap pos e) z')
                      | inr old ↦ g i old
                    ])
              ]
    kept_set_client (negsuc k) v ok t g = if_fault

    OnlyFrom-Closed : Closed (OnlyFrom env msg s)
    OnlyFrom-Closed = record {
      buf = λ b g. g;
      sent = λ sent g. g;
      userdata = λ u g. g;
      folder = λ d g. g;
      closed = λ socket g. g;
      worker = kept_get_worker;
      logout = λ id. kept_set_client id false (λ i e (z : false ≡ true). cc z);
    }

    kept_login :
        (socket : ℕ)
        → type_of msg.type ≡ some login
        → IfDone (λ _. OnlyFrom env msg s) (handle_login env socket msg s)
    unfolding handle_login
    kept_login socket type =
        IfDone-then _
          (valid (validate_user (env.name msg.payload) (env.pass msg.payload) s.userdata) refl)
          λ id t (g, ok).
            Keeps-if (is_nonneg id) _ _
              (Keeps-then _ _ (kept_set_client id true (λ i e z. (type, ok ∙ ap some e)))
                (kept_send_ok OnlyFrom-Closed env socket id))
              (kept_send_failed OnlyFrom-Closed socket) t g
      where
        valid :
            (o : Option ℤ)
            → validate_user (env.name msg.payload) (env.pass msg.payload) s.userdata ≡ o
            → IfDone
                (λ id t.
                  OnlyFrom env msg s t
                  × (validate_user (env.name msg.payload) (env.pass msg.payload) s.userdata
                      ≡ some id))
                (deref o s)
        valid none e = if_fault
        valid (some id) e = if_done ((λ i h. inl h), e)

module _ {R : Type 0} (J : Type 0) ⦃rope : Rope R⦄ ⦃json : Json J⦄ where
  -- In both modes, whoever is logged in after a message was so before it, or the message is a LOGIN
  -- with the name and the password of the account with that number.
  pub handle_msg-LoggedIn :
      (env : Env) (fuel socket : ℕ) (msg : Message) (s t : Server R) (res i : ℕ)
      → handle_msg J env fuel socket msg s ≡ done res t
      → LoggedIn t i
      → LoggedIn s i ⊎ ProvesId env msg s i
  handle_msg-LoggedIn env fuel socket msg s t res i e h =
      IfDone-eq
        (kept_handle_msg (OnlyFrom-Closed env msg s) J env fuel socket msg s (λ i h. inl h)
          (kept_login env msg s socket))
        e i h
