-- ===== src/Moves.antt =====
-- The moves of `pg_param_detail`, include/database/internal/type_detail.h, and of `query_request`,
-- include/database/postgres_client.h, in memory: a `pg_param_detail` has pointers into its own strings.
-- A vector's strings are a block, which a move of the vector leaves where it is, as the standard says;
-- a vector that was moved from is empty. What a move leaves in a string is a parameter.
pub mod Places
pub mod Kept
pub mod Passed
pub mod Reading
pub mod Sent
mod Tests
use mathlib.Core.Option
use postgres_cpp_lib.Base.{
  ℕ, suc, zero, Bool, true, false, Option, none, some, List, [], ◌∷◌, map, take, get_elem?, ◌==◌,
  if◌then◌else◌,
}
use postgres_cpp_lib.Wire.{Bytes}
use postgres_cpp_lib.Param.{PgParamDetail}

-- The characters of one string of a block.
pub record Pointer : Type 0 where
  pub block : ℕ
  pub index : ℕ

-- A `pg_param_detail`; `text` is the block of its strings, or none for a vector without one.
pub record Detail : Type 0 where
  pub query : Bytes
  pub text : Option ℕ
  pub buffers : List (Option Pointer)
  pub lengths : List ℕ
  pub formats : List ℕ

-- What a `query_request` has behind its `detail`, which is its first member and stands at its address.
-- A callback is its number, or none for an empty function.
pub record Callbacks : Type 0 where
  pub on_success : Option ℕ
  pub on_error : Option ℕ
  pub direct_callback : Bool

pub record Memory : Type 0 where
  pub blocks : ℕ → Option (List Bytes)
  pub next_block : ℕ
  pub details : ℕ → Option Detail
  pub callbacks : ℕ → Option Callbacks

unfoldable pub update : {A : Type 0} → ℕ → A → (ℕ → A) → ℕ → A
update a x f b = if b == a then x else f b

-- The end of a vector's strings.
unfoldable pub free : Option ℕ → (ℕ → Option (List Bytes)) → ℕ → Option (List Bytes)
unfolding update
free none blocks = blocks
free (some k) blocks = update k none blocks

pub data Action : Type 0 where
  -- `MakePgParamBuffer` returns a `pg_param_detail` at this address.
  makes : ℕ → PgParamDetail → Action
  -- A `query_request` that is empty.
  makes_empty : ℕ → Action
  -- The move constructor and the move assignment of a `pg_param_detail`, to one address from another.
  moves assigns : ℕ → ℕ → Action
  -- A `query_request` from a `pg_param_detail`, and its own move constructor and move assignment.
  makes_request moves_request assigns_request : ℕ → ℕ → Action
  -- The callbacks of a request are set.
  sets : ℕ → Callbacks → Action
  -- The destructors.
  destroys destroys_request : ℕ → Action

-- A `pg_param_detail` whose strings are the block `k`.
abbrev pub placed : ℕ → PgParamDetail → Detail
placed k p = record {
  query = p.query;
  text = some k;
  buffers = map (Option.map (λ i. record { block = k; index = i })) p.buffers;
  lengths = p.lengths;
  formats = p.formats;
}

abbrev pub empty_detail : Detail
empty_detail = record { query = []; text = none; buffers = []; lengths = []; formats = [] }

abbrev pub no_callbacks : Callbacks
no_callbacks = record { on_success = none; on_error = none; direct_callback = false }

-- What is left of the request whose callbacks were moved.
abbrev pub without_callbacks : Callbacks → Callbacks
without_callbacks r = record r { on_success = none; on_error = none }

-- The callbacks at `src` go to `dst`.
unfoldable pub pass_callbacks :
    ℕ → ℕ → Option Callbacks → (ℕ → Option Callbacks) → ℕ → Option Callbacks
unfolding update
pass_callbacks dst src none callbacks = callbacks
pass_callbacks dst src (some r) callbacks =
    update dst (some r) (update src (some (without_callbacks r)) callbacks)

module _ (left_over : Bytes → Bytes) where
  -- What a move leaves behind.
  abbrev pub moved_from : Detail → Detail
  moved_from d = record {
    query = left_over d.query;
    text = none;
    buffers = [];
    lengths = [];
    formats = [];
  }

  -- The members of `src`, at `dst`. Without an object at `src`, or with one at `dst`, the program is at
  -- fault.
  unfoldable pub construct : ℕ → ℕ → Option Detail → Option Detail → Memory → Option Memory
  unfolding update
  construct dst src (some d) none m =
      some (record m { details = update dst (some d) (update src (some (moved_from d)) m.details) })
  construct dst src (some d) (some old) m = none
  construct dst src none old m = none

  unfoldable pub assign_at : ℕ → ℕ → Option Detail → Option Detail → Memory → Option Memory
  unfolding update free
  assign_at dst src (some d) (some old) m = some (record m {
    blocks = free old.text m.blocks;
    details = update dst (some d) (update src (some (moved_from d)) m.details);
  })
  assign_at dst src (some d) none m = none
  assign_at dst src none old m = none

  unfoldable pub make_at : ℕ → PgParamDetail → Option Detail → Memory → Option Memory
  unfolding update
  make_at a p none m = some (record m {
    blocks = update m.next_block (some p.text) m.blocks;
    next_block = suc m.next_block;
    details = update a (some (placed m.next_block p)) m.details;
  })
  make_at a p (some d) m = none

  unfoldable pub make_empty_at : ℕ → Option Detail → Memory → Option Memory
  unfolding update
  make_empty_at a none m = some (record m { details = update a (some empty_detail) m.details })
  make_empty_at a (some d) m = none

  unfoldable pub destroy_at : ℕ → Option Detail → Memory → Option Memory
  unfolding update free
  destroy_at a (some d) m =
      some (record m { blocks = free d.text m.blocks; details = update a none m.details })
  destroy_at a none m = none

  -- `this != &other`
  unfoldable pub assign_other : ℕ → ℕ → Memory → Option Memory
  unfolding assign_at
  assign_other dst src m =
      if dst == src then some m else assign_at dst src (m.details src) (m.details dst) m

  unfoldable pub on_details : Action → Memory → Option Memory
  unfolding construct make_at make_empty_at destroy_at assign_other
  on_details (makes a p) m = make_at a p (m.details a) m
  on_details (makes_empty a) m = make_empty_at a (m.details a) m
  on_details (moves dst src) m = construct dst src (m.details src) (m.details dst) m
  on_details (assigns dst src) m = assign_other dst src m
  on_details (makes_request dst src) m = construct dst src (m.details src) (m.details dst) m
  on_details (moves_request dst src) m = construct dst src (m.details src) (m.details dst) m
  on_details (assigns_request dst src) m = assign_other dst src m
  on_details (sets a r) m = some m
  on_details (destroys a) m = destroy_at a (m.details a) m
  on_details (destroys_request a) m = destroy_at a (m.details a) m

  unfoldable pub on_callbacks : Action → (ℕ → Option Callbacks) → ℕ → Option Callbacks
  unfolding update pass_callbacks
  on_callbacks (makes_empty a) callbacks = update a (some no_callbacks) callbacks
  on_callbacks (makes_request dst src) callbacks = update dst (some no_callbacks) callbacks
  on_callbacks (moves_request dst src) callbacks = pass_callbacks dst src (callbacks src) callbacks
  on_callbacks (assigns_request dst src) callbacks =
      if dst == src then callbacks else pass_callbacks dst src (callbacks src) callbacks
  on_callbacks (sets a r) callbacks = update a (some r) callbacks
  on_callbacks (destroys_request a) callbacks = update a none callbacks
  on_callbacks (makes a p) callbacks = callbacks
  on_callbacks (moves dst src) callbacks = callbacks
  on_callbacks (assigns dst src) callbacks = callbacks
  on_callbacks (destroys a) callbacks = callbacks

  unfoldable pub perform : Action → Memory → Option Memory
  unfolding on_details on_callbacks
  perform act m =
      Option.map (λ (n : Memory). record n { callbacks = on_callbacks act m.callbacks })
        (on_details act m)

  unfoldable pub perform_all : List Action → Memory → Option Memory
  perform_all [] m = some m
  perform_all (act ∷ acts) m = Option.bind (perform act m) (perform_all acts)

-- A string through a pointer.
unfoldable pub read : Pointer → Memory → Option Bytes
read p m = Option.bind (m.blocks p.block) (λ ts. get_elem? ts p.index)
