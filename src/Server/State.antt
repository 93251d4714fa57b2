-- ===== src/Server/State.antt =====
-- src/server.c, lines 22 to 52: the state of a server process, main or worker.
--
-- What the process gets from outside is in `Env`. A socket is its descriptor; the free entries of
-- poll_list, those with fd -1, are `none`, and entry 0, the listening socket, is left out: slot i
-- of `poll_list` is entry i + 1. `sent` are the messages sent so far, the last one first.
use lprog_hw.Prelude.{ℕ, Bool, Option, none, some, List, ◌∷◌, get_elem?, set}
use lprog_hw.Prelude.Int.{ℤ, pos, negsuc}
use lprog_hw.Utilities.Text.{Text}
use lprog_hw.Utilities.Files.{Folder}
use lprog_hw.Buffer.State.{Buffer, Outcome, done, fault, out_of_fuel, CmoveDir}
use lprog_hw.Message.{Message}

-- MAX_CLIENTS and MAX_WORKERS
abbrev pub max_clients : ℕ
max_clients = 5

abbrev pub max_workers : ℕ
max_workers = 5

pub data Mode : Type 0 where
  server_mode worker_mode : Mode

pub record Env : Type 0 where
  -- port_free; the result of fork in the parent
  pub port_free : ℕ → Bool
  pub fork : ℕ
  -- the fields "name" and "pass" of a payload, `none` for NULL
  pub name : Option Text → Option Text
  pub pass : Option Text → Option Text
  -- what is read at the pointer to a string of a JSON value after json_value_free, at each line of
  -- userdata.txt
  pub freed : ℕ → Text → Text
  -- what malloc left in the buffer of getFileList, and what is on the stack for `dir`
  pub junk : Text
  pub junk_dir : Option CmoveDir
  -- what is read at an index outside the array `clients`
  pub outside : ℤ → Bool

pub record Worker : Type 0 where
  pub port : ℕ
  pub pid : ℕ

pub record Server (R : Type 0) : Type 0 where
  pub mode : Mode
  pub hport : ℕ
  pub poll_list : List (Option ℕ)
  -- clients[MAX_CLIENTS+1] and workers[MAX_WORKERS+1]
  pub clients : List Bool
  pub workers : List Worker
  -- the process of the tunnel, 0 if there is none
  pub socat_pid : ℕ
  pub buf : Option (Buffer R)
  pub userdata : Option Text
  pub folder : Folder
  pub sent : List (ℕ × Message)

abbrev pub S : Type 0 → Type 0 → Type 0
S R A = Server R → Outcome (Server R) A

module _ {R : Type 0} where
  module _ {A : Type 0} where
    abbrev pub pure : A → S R A
    pure = done

    abbrev pub and_then : {B : Type 0} → Outcome (Server R) A → (A → S R B) → Outcome (Server R) B
    and_then (done a s) k = k a s
    and_then fault k = fault
    and_then out_of_fuel k = out_of_fuel

    infixl 5 ◌>>=◌
    abbrev pub ◌>>=◌ : {B : Type 0} → S R A → (A → S R B) → S R B
    ◌>>=◌ m k s = and_then (m s) k

    infixl 5 ◌>>◌
    abbrev pub ◌>>◌ : {B : Type 0} → S R A → S R B → S R B
    ◌>>◌ m k s = and_then (m s) λ _. k

    -- A result `none` is a crash.
    abbrev pub deref : Option A → S R A
    deref none = λ _. fault
    deref (some a) = pure a

    -- A call on the worker's buffer; `buf` may be NULL.
    abbrev pub keep_buffer : Server R → Outcome (Buffer R) A → Outcome (Server R) A
    keep_buffer s (done a b) = done a (record s { buf = some b })
    keep_buffer s fault = fault
    keep_buffer s out_of_fuel = out_of_fuel

    unfoldable pub on_buffer : (Buffer R → Outcome (Buffer R) A) → S R A
    on_buffer m s = elim s.buf [ none ↦ fault | some b ↦ keep_buffer s (m b) ]

  abbrev pub skip : S R (Unit {0})
  skip = done tt

  abbrev pub state : S R (Server R)
  state s = done s s

  abbrev pub modify : (Server R → Server R) → S R (Unit {0})
  modify f s = done tt (f s)

  -- clients[user_id]. Past the end and before the array, where LOGIN with its id -1 reads, it is `outside`.
  unfoldable pub get_client : (ℤ → Bool) → ℤ → S R Bool
  get_client outside (pos i) s = elim (get_elem? s.clients i) [
    | none ↦ done (outside (pos i)) s
    | some v ↦ done v s
  ]
  get_client outside (negsuc i) s = done (outside (negsuc i)) s

  -- A write outside the array is a fault.
  unfoldable pub set_client : ℤ → Bool → S R (Unit {0})
  set_client (pos i) v s = elim (get_elem? s.clients i) [
    | none ↦ fault
    | some _ ↦ done tt (record s { clients = set s.clients i v })
  ]
  set_client (negsuc i) v s = fault

  -- send_msg and send_msg_without_delete, once the socket takes the message
  abbrev pub send_msg : ℕ → Message → S R (Unit {0})
  send_msg socket msg s = done tt (record s { sent = (socket, msg) ∷ s.sent })
