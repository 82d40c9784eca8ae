-- ===== src/Prelude/Text.antt =====
-- Texts: order, characters and separators.
use Prim.Native.Char.{Char, code}
use Prim.Native.Nat.{ℕ, Ordering}
use Prim.Native.String.{String, [], ◌∷◌, ◌++◌, compare}
use mathlib.Core.Bool.{Bool, true, false, ◌&&◌, ◌||◌}
use mathlib.Core.List.{List}
use metering.Prelude.Tests.{leb, ◌==◌, if◌then◌else◌}

-- `s < t`, by code points
abbrev pub text_lt : String → String → Bool
text_lt s t = elim (compare s t) [ Ordering.lt ↦ true | _ ↦ false ]

-- `any(test(character) for character in s)`
unfoldable pub any_char : (ℕ → Bool) → String → Bool
any_char test [] = false
any_char test (c ∷ s) = test (code c) || any_char test s

-- `character in "0123456789abcdef"`
abbrev pub is_hex : ℕ → Bool
is_hex c = leb b'0' c && leb c b'9' || leb b'a' c && leb c b'f'

extend_first : Char → List String → List String
extend_first c List.[] = List.◌∷◌ (c ∷ []) List.[]
extend_first c (List.◌∷◌ s rest) = List.◌∷◌ (c ∷ s) rest

-- `s.split("/")`
unfoldable pub split_slash : String → List String
unfolding extend_first
split_slash [] = List.◌∷◌ [] List.[]
split_slash (c ∷ s) =
    if code c == b'/' then List.◌∷◌ [] (split_slash s) else extend_first c (split_slash s)

-- `s.startswith("/")`
unfoldable pub starts_with_slash : String → Bool
starts_with_slash [] = false
starts_with_slash (c ∷ s) = code c == b'/'

-- `"/".join(xs)`
unfoldable pub join_slash : List String → String
join_slash List.[] = ""
join_slash (List.◌∷◌ s List.[]) = s
join_slash (List.◌∷◌ s (List.◌∷◌ t rest)) = s ++ "/" ++ join_slash (List.◌∷◌ t rest)
