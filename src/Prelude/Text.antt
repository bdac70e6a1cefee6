-- ===== src/Prelude/Text.antt =====
-- Text as code points, for the tests that a regular expression or a path makes.
use Prim.Native.Char.{code}
use Prim.Native.Nat.{ℕ, ◌+◌, ◌/◌, ◌%◌}
use Prim.Native.String.{String, compare}
use Prim.Native.String.{◌++◌ as append_text}
use Prim.Native.Nat.{Ordering}
use mathlib.Core.Bool.{Bool, true, false, not, ◌&&◌, ◌||◌}
use mathlib.Core.List.{List, [], ◌∷◌, ◌++◌}
use dispatcher_for_codex_age.Prelude.Tests.{◌==◌, nat_eq, list_eq, leb, ltb, if◌then◌else◌}
use dispatcher_for_codex_age.Prelude.Lists.{length, all, filter}

abbrev pub codes : String → List ℕ
codes String.[] = []
codes (String.◌∷◌ c s) = code c ∷ codes s

-- `s + t`
abbrev pub concat : String → String → String
concat s t = append_text s t

-- `s <= t`, by code points.
abbrev pub text_leb : String → String → Bool
text_leb s t = elim (compare s t) [ Ordering.gt ↦ false | _ ↦ true ]

-- `s.endswith(t)`
abbrev pub ends_in : List ℕ → List ℕ → Bool
ends_in t [] = [] == t
ends_in t (c ∷ s) = c ∷ s == t || ends_in t s

abbrev pub is_digit : ℕ → Bool
is_digit c = leb b'0' c && leb c b'9'

abbrev pub is_upper : ℕ → Bool
is_upper c = leb b'A' c && leb c b'Z'

abbrev pub is_lower : ℕ → Bool
is_lower c = leb b'a' c && leb c b'z'

-- `[A-Za-z0-9]`
abbrev pub is_alnum : ℕ → Bool
is_alnum c = is_upper c || is_lower c || is_digit c

-- `[0-9a-f]`
abbrev pub is_hex : ℕ → Bool
is_hex c = is_digit c || (leb b'a' c && leb c b'f')

-- `re.fullmatch("[0-9a-f]{64}", s)`
abbrev pub is_sha256 : String → Bool
is_sha256 s = let cs = codes s in length cs == 64 && all is_hex cs

-- The segments between the slashes.
split_path : List ℕ → List ℕ → List (List ℕ)
split_path segment [] = segment ∷ []
split_path segment (c ∷ cs) =
    let next = segment ∷ split_path [] cs in
    let longer = split_path (segment ++ c ∷ []) cs in if c == b'/' then next else longer

-- `Path(s).parts` of a relative path: empty and `.` segments are dropped.
unfoldable pub path_parts : String → List (List ℕ)
unfolding split_path
path_parts s = filter (λ p. not (p == []) && not (p == b'.' ∷ [])) (split_path [] (codes s))

-- `Path(s).is_absolute()`
abbrev pub is_absolute : String → Bool
is_absolute s = elim (codes s) [ [] ↦ false | c ∷ cs ↦ c == b'/' ]

-- The bytes of one code point in UTF-8.
abbrev pub utf8_code : ℕ → List ℕ
utf8_code c =
    if ltb c 128
    then c ∷ []
    else if ltb c 2048
    then (192 + c / 64) ∷ (128 + c % 64) ∷ []
    else if ltb c 65536
    then (224 + c / 4096) ∷ (128 + c / 64 % 64) ∷ (128 + c % 64) ∷ []
    else (240 + c / 262144) ∷ (128 + c / 4096 % 64) ∷ (128 + c / 64 % 64) ∷ (128 + c % 64) ∷ []

abbrev utf8_codes : List ℕ → List ℕ
utf8_codes [] = []
utf8_codes (c ∷ cs) = utf8_code c ++ utf8_codes cs

-- `text.encode()`
abbrev pub utf8 : String → List ℕ
utf8 s = utf8_codes (codes s)

abbrev is_prefix : List ℕ → List ℕ → Bool
is_prefix [] s = true
is_prefix (c ∷ t) [] = false
is_prefix (c ∷ t) (d ∷ s) = c == d && is_prefix t s

-- `t in s`, for texts.
abbrev pub is_within : List ℕ → List ℕ → Bool
is_within t [] = is_prefix t []
is_within t (d ∷ s) = is_prefix t (d ∷ s) || is_within t s
