-- ===== src/Base/Texts.antt =====
-- Texts as lists of character codes, and the values that `std::expected` holds.
use Prim.Native.Char.{code}
use Prim.Native.String.{String}
use postgres_cpp_lib.Base.{ℕ, List, [], ◌∷◌}

abbrev pub Text : Type 0
Text = List ℕ

abbrev pub codes : String → Text
codes String.[] = []
codes (String.◌∷◌ c s) = code c ∷ codes s

pub data Expected {ℓ} (A E : Type ℓ) : Type ℓ where
  value : A → Expected A E
  unexpected : E → Expected A E
