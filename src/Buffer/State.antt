-- ===== src/Buffer/State.antt =====
-- The structs and enums of include/buffer.h, the store that they live in, and the monad of the
-- functions of src/buffer.c.
--
-- A pointer to a line is an address of the store; 0 is NULL. Nothing compares a freed pointer, so
-- `malloc` hands out addresses in order and never fails. What malloc leaves uninitialised is read
-- from `junk`, which may be anything. Each cursor object is pointed to by one slot of the buffer,
-- so a pointer to a cursor is that slot.
use lprog_hw.Prelude.{
  ℕ, ◌+◌, Bool, true, false, Option, none, some, List, ◌==◌, if◌then◌else◌, get_elem?, set, ltb,
  length, not, ◌&&◌,
}

-- enum CRP
pub data Crp : Type 0 where
  above bellow same : Crp

-- enum BRES
pub data Bres : Type 0 where
  failed update success : Bres

-- enum CMOVE_RES
pub data CmoveRes : Type 0 where
  a_up a_down a_horizontal a_nl_up a_nl_down a_none : CmoveRes

-- enum CMOVE_DIR
pub data CmoveDir : Type 0 where
  up down left right : CmoveDir

abbrev pub Ptr : Type 0
Ptr = ℕ

abbrev pub null : Ptr
null = 0

-- MAX_CURSOR_NUM
abbrev pub max_cursor_num : ℕ
max_cursor_num = 20

-- SP_SIZE, the bytes of the scratch pad
abbrev pub sp_size : ℕ
sp_size = 2048

-- struct line; `location` is its field `where`.
pub record Line (R : Type 0) : Type 0 where
  pub id : ℕ
  pub str : R
  pub prev : Ptr
  pub next : Ptr
  pub on_screen : Bool
  pub location : Crp

-- struct cursor, less the pointer to its buffer.
pub record Cursor : Type 0 where
  pub id : ℕ
  pub own_line : Ptr
  pub pos : ℕ

-- A pointer to a cursor: own_curs, or an entry of peer_curss.
pub data CursorRef : Type 0 where
  own : CursorRef
  peer : ℕ → CursorRef

-- struct buffer, less what is in the scratch pad, which is written before each use; `ui` says whether
-- `u` is not NULL, and `repaints` counts the calls of ui_update. The store of lines is `cell`, below
-- `brk`.
pub record Buffer (R : Type 0) : Type 0 where
  pub id : ℕ
  pub ver : ℕ
  pub num_lines : ℕ
  pub line_id_cnt : ℕ
  pub height : ℕ
  pub width : ℕ
  pub first : Ptr
  pub last : Ptr
  pub top : Ptr
  pub bottom : Ptr
  pub own_curs : Cursor
  pub peer_curss : List (Option Cursor)
  pub ui : Bool
  pub server_mode : Bool
  pub repaints : ℕ
  pub cell : Ptr → Option (Line R)
  pub brk : Ptr
  pub junk_on_screen : Bool
  pub junk_location : Crp

-- A run ends with a value and a state, faults (a read through NULL or a dangling pointer), or uses
-- up the fuel of a loop.
pub data Outcome (S A : Type 0) : Type 0 where
  done : A → S → Outcome S A
  fault : Outcome S A
  out_of_fuel : Outcome S A

abbrev pub M : Type 0 → Type 0 → Type 0
M R A = Buffer R → Outcome (Buffer R) A

module _ {R : Type 0} where
  module _ {A : Type 0} where
    abbrev pub pure : A → M R A
    pure = done

    abbrev pub and_then : {B : Type 0} → Outcome (Buffer R) A → (A → M R B) → Outcome (Buffer R) B
    and_then (done a b) k = k a b
    and_then fault k = fault
    and_then out_of_fuel k = out_of_fuel

    infixl 5 ◌>>=◌
    abbrev pub ◌>>=◌ : {B : Type 0} → M R A → (A → M R B) → M R B
    ◌>>=◌ m k b = and_then (m b) k

    infixl 5 ◌>>◌
    abbrev pub ◌>>◌ : {B : Type 0} → M R A → M R B → M R B
    ◌>>◌ m k b = and_then (m b) λ _. k

  abbrev pub skip : M R (Unit {0})
  skip = done tt

  abbrev pub state : M R (Buffer R)
  state b = done b b

  abbrev pub modify : (Buffer R → Buffer R) → M R (Unit {0})
  modify f b = done tt (f b)

  abbrev pub write : (Ptr → Option (Line R)) → Ptr → Option (Line R) → Ptr → Option (Line R)
  write cell p c q = if q == p then c else cell q

  -- `*p` for a line: a fault at NULL and at an address that holds no line.
  unfoldable pub load : Ptr → M R (Line R)
  load p b = if p == null then fault else elim (b.cell p) [ none ↦ fault | some l ↦ done l b ]

  abbrev pub store : Ptr → Line R → M R (Unit {0})
  store p l b = done tt (record b { cell = write b.cell p (some l) })

  -- p->on_screen = v, and so for the other fields.
  unfoldable pub set_on_screen : Ptr → Bool → M R (Unit {0})
  set_on_screen p v = do l ← load p; store p (record l { on_screen = v })

  unfoldable pub set_location : Ptr → Crp → M R (Unit {0})
  set_location p v = do l ← load p; store p (record l { location = v })

  unfoldable pub set_prev : Ptr → Ptr → M R (Unit {0})
  set_prev p q = do l ← load p; store p (record l { prev = q })

  unfoldable pub set_next : Ptr → Ptr → M R (Unit {0})
  set_next p q = do l ← load p; store p (record l { next = q })

  unfoldable pub set_str : Ptr → R → M R (Unit {0})
  set_str p r = do l ← load p; store p (record l { str = r })

  -- rope_write_cstr(str, b->sp), with what the pad holds then: the text, each of whose characters is
  -- one byte, and a 0 behind it. A text that does not fit is written past the end of the buffer, a
  -- fault.
  unfoldable pub write_pad : List ℕ → M R (List ℕ)
  write_pad text b = if ltb (length text) sp_size then done text b else fault

  -- `*c` for a cursor.
  unfoldable pub load_cursor : CursorRef → M R Cursor
  load_cursor own b = done b.own_curs b
  load_cursor (peer i) b = elim (get_elem? b.peer_curss i) [ some (some c) ↦ done c b | _ ↦ fault ]

  unfoldable pub store_cursor : CursorRef → Cursor → M R (Unit {0})
  store_cursor own c b = done tt (record b { own_curs = c })
  store_cursor (peer i) c b = done tt (record b { peer_curss = set b.peer_curss i (some c) })

  -- if(b->u && seen) ui_update(b->u)
  unfoldable pub ui_update_if : Bool → M R (Unit {0})
  ui_update_if seen b =
      done tt (if b.ui then (if seen then record b { repaints = b.repaints + 1 } else b) else b)

  -- For a part in which `u` is what malloc left in `raw`: if that is not NULL, it is no window, and
  -- ui_update, which a count of repaints since shows, is a fault.
  abbrev pub check_undrawn : Buffer R → M R (Unit {0})
  check_undrawn raw b = if raw.ui && not (b.repaints == raw.repaints) then fault else done tt b

abbrev pub same_ref : CursorRef → CursorRef → Bool
same_ref own own = true
same_ref own (peer j) = false
same_ref (peer i) own = false
same_ref (peer i) (peer j) = i == j
