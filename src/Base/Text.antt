-- ===== src/Base/Text.antt =====
-- Python's `str` methods that the sources use, on the native `String`.
use Prim.Native.Nat.{ℕ, zero, suc, ◌-◌, ◌≤◌}
use Prim.Native.Char.{code}
use Prim.Native.String.{String}
use mathlib.Core.Path.{◌≡◌}
use mathlib.Core.Bool.{Bool, true, false, ◌&&◌, ◌||◌}
use native.Mathlib.Omega.{arith}
use paper_to_pipeline.Base.Tests.{leb, eqb, if◌then◌else◌}

-- `len(s)`, in characters
abbrev pub char_count : String → ℕ
char_count String.[] = 0
char_count (String.◌∷◌ c s) = suc (char_count s)

-- `s[n:]`
abbrev pub drop_chars : ℕ → String → String
drop_chars zero s = s
drop_chars (suc n) String.[] = String.[]
drop_chars (suc n) (String.◌∷◌ c s) = drop_chars n s

-- `s[-n:]`, for a positive `n`
unfoldable pub last_chars : ℕ → String → String
last_chars n s = drop_chars (char_count s - n) s

-- `c.isspace()`: the separators of Unicode 15.
abbrev pub is_space : ℕ → Bool
is_space c =
    (leb 9 c && leb c 13)
    || (leb 28 c && leb c 32)
    || eqb c 133
    || eqb c 160
    || eqb c 5760
    || (leb 8192 c && leb c 8202)
    || eqb c 8232
    || eqb c 8233
    || eqb c 8239
    || eqb c 8287
    || eqb c 12288

-- `not s.strip()`
unfoldable pub is_blank : String → Bool
is_blank String.[] = true
is_blank (String.◌∷◌ c s) = is_space (code c) && is_blank s

char_count-drop_chars : (n : ℕ) (s : String) → char_count (drop_chars n s) ≡ char_count s - n
char_count-drop_chars zero s = omega arith
char_count-drop_chars (suc n) String.[] = omega arith
char_count-drop_chars (suc n) (String.◌∷◌ c s) = omega (arith, char_count-drop_chars n s)

-- A tail is no longer than what was asked for.
pub last_chars-le : (n : ℕ) (s : String) → char_count (last_chars n s) ≤ n
unfolding last_chars
last_chars-le n s = omega (arith, char_count-drop_chars (char_count s - n) s)

-- `s + t`
abbrev pub append : String → String → String
append String.[] t = t
append (String.◌∷◌ c s) t = String.◌∷◌ c (append s t)

-- `s.startswith(prefix)`
abbrev pub starts_with : (prefix s : String) → Bool
starts_with String.[] s = true
starts_with (String.◌∷◌ c p) String.[] = false
starts_with (String.◌∷◌ c p) (String.◌∷◌ d s) = eqb (code c) (code d) && starts_with p s

-- `s.replace(old, new)`, for an `old` that is not empty, past the first `skip` characters
unfoldable pub replace_from : (skip : ℕ) (old new : String) → String → String
replace_from skip old new String.[] = String.[]
replace_from (suc skip) old new (String.◌∷◌ c s) = replace_from skip old new s
replace_from zero old new (String.◌∷◌ c s) = elim (starts_with old (String.◌∷◌ c s)) [
  | true ↦ append new (replace_from (char_count old - 1) old new s)
  | false ↦ String.◌∷◌ c (replace_from zero old new s)
]

abbrev pub replace : (old new : String) → String → String
replace old new s = replace_from zero old new s

-- `s.lstrip()`
unfoldable pub lstrip : String → String
lstrip String.[] = String.[]
lstrip (String.◌∷◌ c s) = if is_space (code c) then lstrip s else String.◌∷◌ c s

-- `s.rstrip()`
unfoldable pub rstrip : String → String
unfolding is_blank
rstrip String.[] = String.[]
rstrip (String.◌∷◌ c s) = if is_blank (String.◌∷◌ c s) then String.[] else String.◌∷◌ c (rstrip s)

-- `s.strip()`
abbrev pub strip : String → String
strip s = rstrip (lstrip s)

-- `not s`
abbrev pub is_nil : String → Bool
is_nil String.[] = true
is_nil (String.◌∷◌ _ _) = false

-- `part in s`, for texts
unfoldable pub has_part : (part s : String) → Bool
has_part part String.[] = is_nil part
has_part part (String.◌∷◌ c s) = starts_with part (String.◌∷◌ c s) || has_part part s
