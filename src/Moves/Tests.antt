-- ===== src/Moves/Tests.antt =====
-- The way of the parameters of an `execute_async`: src/postgres_priv.cpp, `EnqueueAsync` and
-- `QueryWorker`.
use mathlib.Core.Option
use postgres_cpp_lib.Base.{
  ◌≡◌, refl, arith, true, false, Option, none, some, List, [], ◌∷◌, map, All,
}
use postgres_cpp_lib.Base.Texts.{codes}
use postgres_cpp_lib.Wire.{Bytes}
use postgres_cpp_lib.Param.{SupportedType, boolean, null, to_binary, make_pg_param_buffer}
use postgres_cpp_lib.Param.Sent.{IsShort, meant}
use postgres_cpp_lib.Moves.{
  Callbacks, Memory, Action, makes, makes_empty, assigns, moves_request, assigns_request, sets,
  destroys, destroys_request, perform, perform_all,
}
use postgres_cpp_lib.Moves.Places.{Apart, follow_all, all_spare}
use postgres_cpp_lib.Moves.Passed.{Sole, all_whole, callbacks-moved}
use postgres_cpp_lib.Moves.Reading.{received_at}
use postgres_cpp_lib.Moves.Sent.{received-moved}

abbrev nothing_left : Bytes → Bytes
nothing_left s = []

abbrev blank : Memory
blank = record { blocks = λ k. none; next_block = 0; details = λ a. none; callbacks = λ a. none }

blank-Apart : Apart blank.details blank.next_block
blank-Apart = record { apart = λ a b k g h. absurd cc; below = λ a k g. absurd cc }

abbrev params : List SupportedType
params = boolean true ∷ null ∷ []

params_short : All (IsShort 1) params
unfolding to_binary
params_short = (omega arith, (omega arith, tt))

abbrev both_callbacks : Callbacks
both_callbacks = record { on_success = some 7; on_error = some 7; direct_callback = false }

-- From `request` to the queue, and from there to `item`.
abbrev taken : List Action
taken =
    moves_request 2 1
    ∷ destroys_request 1
    ∷ destroys 0
    ∷ makes_empty 3
    ∷ assigns_request 3 2
    ∷ destroys_request 2
    ∷ []

-- `param_buffer` stands at 0, and `request` at 1.
abbrev way : List Action
way = makes_empty 1 ∷ assigns 1 0 ∷ sets 1 both_callbacks ∷ taken

abbrev or_else : Memory → Option Memory → Memory
or_else m none = m
or_else m (some n) = n

abbrev first_actions : List Action
first_actions =
    makes 0 (make_pg_param_buffer 1 (codes "SELECT $1, $2") params)
    ∷ makes_empty 1
    ∷ assigns 1 0
    ∷ sets 1 both_callbacks
    ∷ []

abbrev set_up : Memory
set_up = or_else blank (perform_all nothing_left first_actions blank)

abbrev at_item : Memory
at_item = or_else blank (
    perform_all nothing_left (makes 0 (make_pg_param_buffer 1 (codes "SELECT $1, $2") params) ∷ way)
      blank)

arrives :
    perform_all nothing_left
      (makes 0 (make_pg_param_buffer 1 (codes "SELECT $1, $2") params) ∷ way)
      blank
    ≡ some at_item
unfolding perform_all perform Option.bind
arrives = refl

spared : all_spare way 0 ≡ true
unfolding all_spare
spared = refl

received-moved_example :
    received_at (at_item.details (follow_all way 0)) at_item
    ≡ some (codes "SELECT $1, $2", map (meant 1) params)
received-moved_example =
    received-moved nothing_left 1 (codes "SELECT $1, $2") params way 0 blank at_item params_short
      (omega arith) blank-Apart arrives spared

-- `item` stands at 3.
item_place : follow_all way 0 ≡ 3
unfolding follow_all
item_place = refl

set_up-Sole : Sole 1 7 both_callbacks set_up.callbacks
unfolding perform_all perform Option.bind
set_up-Sole = record { here = refl; only = λ x g. ground (arith, g) }

abbrev passed : Memory
passed = or_else set_up (perform_all nothing_left taken set_up)

passes : perform_all nothing_left taken set_up ≡ some passed
unfolding perform_all perform Option.bind
passes = refl

kept_whole : all_whole 7 taken 1 ≡ true
unfolding all_whole
kept_whole = refl

callbacks-moved_example : Sole (follow_all taken 1) 7 both_callbacks passed.callbacks
callbacks-moved_example =
    callbacks-moved nothing_left taken 1 7 both_callbacks set_up passed set_up-Sole passes
      kept_whole
