-- ===== src/Server/Tables/Steps.antt =====
-- What the steps of a handler do to the tables of the process.
use lprog_hw.Prelude.{
  ℕ, ◌+◌, ◌≤◌, ◌<◌, ◌≡◌, refl, Bool, true, false, ◌==◌, none, some, arith, get_elem?, set,
}
use lprog_hw.Prelude.Int.{ℤ, pos, negsuc, is_nonneg}
use lprog_hw.Buffer.State.{done, fault, out_of_fuel}
use lprog_hw.Utilities.Users.{validate_user}
use lprog_hw.Message.{Message}
use lprog_hw.Server.State.{Env, Server, set_client}
use lprog_hw.Server.Handle.{take_port, get_entry, set_entry, get_worker, next_port, handle_login}
use lprog_hw.Server.Keeps.{
  IfDone, if_done, if_fault, if_fuel, Keeps, IfDone-then, Keeps-bind, Keeps-then, Keeps-deref,
  Keeps-if,
}
use lprog_hw.Server.Ports.{Search, at_port, next_port-Search}
use lprog_hw.Server.Closed.{Closed, kept_send_ok, kept_send_failed}
use lprog_hw.Server.Tables.{
  Tables, WellFormed, Tables-drop_socket, Tables-login, Tables-hport, Tables-worker,
}

module _ {R : Type 0} where
  abbrev AtPort : ℕ → Server R → Type 0
  AtPort h s = Tables s.poll_list s.clients s.workers h

  took :
      (env : Env) (fuel h : ℕ) (s : Server R)
      → AtPort h s
      → IfDone (λ p t. AtPort h t × (s.hport ≤ p) × (t.hport ≡ p + 1)) (take_port env fuel s)
  unfolding take_port
  took env fuel h s w =
      elim (next_port env.port_free fuel s.hport)
          as (λ o.
            Search env.port_free fuel s.hport o
            → IfDone (λ p t. AtPort h t × (s.hport ≤ p) × (t.hport ≡ p + 1))
                (elim o [ none ↦ out_of_fuel | some p ↦ done p (record s { hport = p + 1 }) ])) [
                  | none ↦ λ k. if_fuel
                  | some p ↦ λ k. if_done (w, lower p k, refl)
                ]
        (next_port-Search env.port_free fuel s.hport)
    where
      lower : (p : ℕ) → Search env.port_free fuel s.hport (some p) → s.hport ≤ p
      lower p (at_port q le lt f g) = le

  kept_entry : (file_id : ℤ) → Keeps WellFormed (get_entry {R = R} file_id)
  unfolding get_entry
  kept_entry (pos i) s w =
      elim (get_elem? s.workers i)
        as (λ o. IfDone (λ _. WellFormed) (elim o [ none ↦ fault | some w ↦ done w s ])) [
          | none ↦ if_fault
          | some v ↦ if_done w
        ]
  kept_entry (negsuc i) s w = if_fault

  kept_new :
      (env : Env) (file_id : ℤ) (h pp : ℕ) (s : Server R)
      → AtPort h s
      → h < pp
      → s.hport ≡ pp + 1
      → IfDone (λ _. WellFormed) (set_entry file_id (record { port = pp; pid = env.fork }) s)
  kept_new env (pos i) h pp s w lt e =
      if_done (Tables-hport (Tables-worker w i pp env.fork lt) s.hport (omega arith))
  kept_new env (negsuc i) h pp s w lt e = if_fault

  kept_get_worker :
      (env : Env) (fuel : ℕ) (file_id : ℤ) → Keeps WellFormed (get_worker {R = R} env fuel file_id)
  unfolding get_worker
  kept_get_worker env fuel file_id = Keeps-bind _ _ (kept_entry file_id) λ w.
      Keeps-if (w.port == 0) _ _
        (λ s g. IfDone-then _ (took env fuel s.hport s g) λ lp t (g1, le, e).
          IfDone-then _ (took env fuel s.hport t g1) λ pp u (g2, le', e').
            IfDone-then _ (kept_new env file_id s.hport pp u g2 (omega (arith, le, e, le')) e')
              λ _ v g3. if_done g3)
        (λ s g. if_done g)

  kept_set_client : (id : ℤ) (v : Bool) → Keeps WellFormed (set_client {R = R} id v)
  unfolding set_client
  kept_set_client (pos i) v s g =
      elim (get_elem? s.clients i)
        as (λ o.
          IfDone (λ _. WellFormed)
            (elim o [
              | none ↦ fault
              | some _ ↦ done tt (record s { clients = set s.clients i v })
            ])) [ none ↦ if_fault | some u ↦ if_done (Tables-login g i v) ]
  kept_set_client (negsuc i) v s g = if_fault

  pub WellFormed-Closed : Closed (WellFormed {R = R})
  WellFormed-Closed = record {
    buf = λ b g. g;
    sent = λ sent g. g;
    userdata = λ u g. g;
    folder = λ d g. g;
    closed = λ socket g. Tables-drop_socket g socket;
    worker = kept_get_worker;
    logout = λ id. kept_set_client id false;
  }

  pub kept_login :
      (env : Env) (socket : ℕ) (msg : Message)
      → Keeps WellFormed (handle_login {R = R} env socket msg)
  unfolding handle_login
  kept_login env socket msg s g =
      IfDone-then _
        (Keeps-deref {P = WellFormed}
          (validate_user (env.name msg.payload) (env.pass msg.payload) s.userdata) s g)
        λ id.
          Keeps-if (is_nonneg id) _ _
            (Keeps-then _ _ (kept_set_client id true)
              (kept_send_ok WellFormed-Closed env socket id))
            (kept_send_failed WellFormed-Closed socket)
