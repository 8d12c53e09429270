-- ===== src/Base/Split.antt =====
-- `strings.Split` and the last of its parts.
use Prim.Native.Nat.{ℕ}
use Prim.Native.Char.{Char, code}
use Prim.Native.String.{String}
use mathlib.Core.Path.{◌≡◌, refl}
use mathlib.Core.List.{List, [], ◌∷◌}
use agent_infra_system.Base.Tests.{nat_eq, if◌then◌else◌}

prepend : Char → List String → List String
prepend c [] = String.◌∷◌ c String.[] ∷ []
prepend c (part ∷ parts) = String.◌∷◌ c part ∷ parts

-- `strings.Split(s, sep)` for a separator of one character
unfoldable pub split_on : ℕ → String → List String
unfolding prepend
split_on sep String.[] = "" ∷ []
split_on sep (String.◌∷◌ c s) =
    let rest = split_on sep s in if nat_eq (code c) sep then "" ∷ rest else prepend c rest

-- `parts[len(parts)-1]`
unfoldable pub last_part : List String → String
last_part [] = ""
last_part (s ∷ []) = s
last_part (s ∷ t ∷ ts) = last_part (t ∷ ts)

split_example : split_on b':' "max:12" ≡ "max" ∷ "12" ∷ []
unfolding split_on
split_example = refl
