-- ===== src/Moves/Places.antt =====
-- Where the parameters and the callbacks of a request are, and where actions take them.
use mathlib.Core.Option
use postgres_cpp_lib.Base.{
  ℕ, ◌<◌, ◌≡◌, Bool, true, not, ◌&&◌, ◌||◌, Option, none, some, List, [], ◌∷◌, ◌==◌, if◌then◌else◌,
}
use postgres_cpp_lib.Param.{PgParamDetail}
use postgres_cpp_lib.Moves.{
  Detail, Callbacks, Memory, Action, makes, makes_empty, moves, assigns, makes_request,
  moves_request, assigns_request, sets, destroys, destroys_request, placed,
}

abbrev pub text_of : Option Detail → Option ℕ
text_of none = none
text_of (some d) = d.text

-- No two objects have the same block, and the blocks to come are nobody's.
pub record Apart (f : ℕ → Option Detail) (n : ℕ) : Type 0 where
  pub apart : (a b k : ℕ) → text_of (f a) ≡ some k → text_of (f b) ≡ some k → a ≡ b
  pub below : (a k : ℕ) → text_of (f a) ≡ some k → k < n

-- What an action leaves, where it is not at fault.
abbrev pub Then {ℓ} : (Memory → Type ℓ) → Option Memory → Type ℓ
Then P none = Unit
Then P (some m) = P m

-- The strings of a `pg_param_detail` at this address are the block `k`.
pub record Holds (a k : ℕ) (p : PgParamDetail) (m : Memory) : Type 0 where
  pub detail : m.details a ≡ some (placed k p)
  pub strings : m.blocks k ≡ some p.text

-- Where a `pg_param_detail` is behind an action.
abbrev pub follow : Action → ℕ → ℕ
follow (moves dst src) a = if a == src then dst else a
follow (assigns dst src) a = if a == src then dst else a
follow (makes_request dst src) a = if a == src then dst else a
follow (moves_request dst src) a = if a == src then dst else a
follow (assigns_request dst src) a = if a == src then dst else a
follow (makes b p) a = a
follow (makes_empty b) a = a
follow (sets b r) a = a
follow (destroys b) a = a
follow (destroys_request b) a = a

-- The action neither destroys what is at the address nor assigns another to it.
abbrev pub spares : Action → ℕ → Bool
spares (assigns dst src) a = (dst == src) || not (dst == a)
spares (assigns_request dst src) a = (dst == src) || not (dst == a)
spares (destroys b) a = not (b == a)
spares (destroys_request b) a = not (b == a)
spares (makes b p) a = true
spares (makes_empty b) a = true
spares (moves dst src) a = true
spares (makes_request dst src) a = true
spares (moves_request dst src) a = true
spares (sets b r) a = true

-- Where the actions take what is at the address.
unfoldable pub follow_all : List Action → ℕ → ℕ
follow_all [] a = a
follow_all (act ∷ acts) a = follow_all acts (follow act a)

-- No action destroys what was at the address, or assigns another to it.
unfoldable pub all_spare : List Action → ℕ → Bool
all_spare [] a = true
all_spare (act ∷ acts) a = spares act a && all_spare acts (follow act a)

abbrev pub with_callbacks : (ℕ → Option Callbacks) → Option Memory → Option Memory
with_callbacks f = Option.map (λ (n : Memory). record n { callbacks = f })
