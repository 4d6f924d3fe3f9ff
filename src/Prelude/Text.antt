-- ===== src/Prelude/Text.antt =====
-- Go's `strings` functions that the program calls, over texts of valid UTF-8.
use Prim.Native.Nat.{ℕ, zero, suc, ◌-◌, ◌/◌, ◌%◌}
use Prim.Native.Char.{Char, char, code}
use Prim.Native.String.{String, ◌++◌}
use mathlib.Core.Bool.{Bool, true, false, ◌&&◌, ◌||◌}
use mathlib.Core.Option.{Option, none, some}
use mathlib.Core.List.{List, [], ◌∷◌}
use mathlib.Core.Path.{◌≡◌}
use mathlib.Core.Logic.{◌≢◌}
use native.Mathlib.Omega.{arith}
use text.Mathlib.Text.{◌==◌}
use text.Mathlib.TextEquality.{eq_iff}
use fluxgate_operator.Prelude.Int.{ℤ, pos, negsuc}
use fluxgate_operator.Prelude.Tests.{eqb, ltb, leb, if◌then◌else◌}

-- What Go's `unicode` tables say beyond ASCII.
pub record Unicode : Type 0 where
  pub lower_rune : Char → Char
  pub same_fold : Char → Char → Bool

-- `strings.HasPrefix(s, p)`
unfoldable pub has_prefix : String → String → Bool
has_prefix s String.[] = true
has_prefix String.[] (String.◌∷◌ d p) = false
has_prefix (String.◌∷◌ c s) (String.◌∷◌ d p) = eqb (code c) (code d) && has_prefix s p

-- `s[len(p):]`, where `s` begins with `p`
unfoldable pub drop_prefix : String → String → String
drop_prefix s String.[] = s
drop_prefix String.[] (String.◌∷◌ d p) = String.[]
drop_prefix (String.◌∷◌ c s) (String.◌∷◌ d p) = drop_prefix s p

-- `strings.TrimPrefix(s, p)`
unfoldable pub trim_prefix : String → String → String
unfolding has_prefix drop_prefix
trim_prefix s p = if has_prefix s p then drop_prefix s p else s

-- `strings.Contains(s, p)`
unfoldable pub contains : String → String → Bool
unfolding has_prefix
contains String.[] p = has_prefix String.[] p
contains (String.◌∷◌ c s) p = has_prefix (String.◌∷◌ c s) p || contains s p

-- `strings.HasSuffix(s, p)`
unfoldable pub has_suffix : String → String → Bool
has_suffix String.[] p = String.[] == p
has_suffix (String.◌∷◌ c s) p = String.◌∷◌ c s == p || has_suffix s p

-- `strings.TrimSuffix(s, p)`
unfoldable pub trim_suffix : String → String → String
trim_suffix String.[] p = String.[]
trim_suffix (String.◌∷◌ c s) p =
    if String.◌∷◌ c s == p then String.[] else String.◌∷◌ c (trim_suffix s p)

-- The texts before and after the first character with the code `n`, `i := strings.Index(s, …)`:
-- `s[:i]` and `s[i+1:]`.
unfoldable pub cut : ℕ → String → Option (String × String)
cut n String.[] = none
cut n (String.◌∷◌ c s) =
    let rest : Option (String × String) = elim (cut n s) [
      | none ↦ none
      | some (a, b) ↦ some (String.◌∷◌ c a, b)
    ] in
    if eqb (code c) n then some (String.[], s) else rest

-- `strings.SplitN(s, …, k)` at the one-character separator with the code `n`
unfoldable pub split_n : ℕ → String → ℕ → List String
unfolding cut
split_n n s zero = []
split_n n s (suc zero) = s ∷ []
split_n n s (suc (suc k)) = elim (cut n s) [ none ↦ s ∷ [] | some (a, b) ↦ a ∷ split_n n b (suc k) ]

-- The character at a place of a text.
unfoldable pub char_or : String → ℕ → Char → Char
char_or String.[] n d = d
char_or (String.◌∷◌ c s) zero d = c
char_or (String.◌∷◌ c s) (suc n) d = char_or s n d

-- `%d` of a number that is not negative, with its digits in front of `rest`; the fuel is more than
-- the number.
digits_from : ℕ → ℕ → String → String
digits_from zero n rest = rest
digits_from (suc fuel) n rest =
    let front = String.◌∷◌ (char_or "0123456789" (n % 10) (char 48 tt)) rest in
    let more = digits_from fuel (n / 10) front in if ltb n 10 then front else more

-- `%d`, and `strconv.Itoa`
unfoldable pub itoa : ℤ → String
unfolding digits_from char_or
itoa (pos n) = digits_from (suc n) n ""
itoa (negsuc n) = "-" ++ digits_from (suc (suc n)) (suc n) ""

-- `strings.Join(xs, sep)`
unfoldable pub join : List String → String → String
join [] sep = ""
join (x ∷ []) sep = x
join (x ∷ y ∷ xs) sep = x ++ (sep ++ join (y ∷ xs) sep)

-- `fmt.Sprintf("%v", xs)` of a slice of texts
unfoldable pub print_slice : List String → String
unfolding join
print_slice xs = "[" ++ (join xs " " ++ "]")

abbrev is_upper : ℕ → Bool
is_upper n = leb b'A' n && leb n b'Z'

module _ (u : Unicode) where
  -- `unicode.ToLower`
  unfoldable pub lower_char : Char → Char
  unfolding char_or
  lower_char c =
      if ltb (code c) 128
      then (if is_upper (code c) then char_or "abcdefghijklmnopqrstuvwxyz" (code c - b'A') c else c)
      else u.lower_rune c

  -- `strings.ToLower`
  unfoldable pub to_lower : String → String
  unfolding lower_char
  to_lower String.[] = String.[]
  to_lower (String.◌∷◌ c s) = String.◌∷◌ (lower_char c) (to_lower s)

  -- Two characters in `strings.EqualFold`: between ASCII characters only the case may differ.
  unfoldable pub fold_char : Char → Char → Bool
  unfolding lower_char
  fold_char c d =
      if eqb (code c) (code d)
      then true
      else if ltb (code c) 128 && ltb (code d) 128
      then eqb (code (lower_char c)) (code (lower_char d))
      else u.same_fold c d

  -- `strings.EqualFold`
  unfoldable pub equal_fold : String → String → Bool
  unfolding fold_char
  equal_fold String.[] String.[] = true
  equal_fold String.[] (String.◌∷◌ d t) = false
  equal_fold (String.◌∷◌ c s) String.[] = false
  equal_fold (String.◌∷◌ c s) (String.◌∷◌ d t) = fold_char c d && equal_fold s t

-- The pieces that a format puts together.
unfoldable pub concat : List String → String
concat [] = ""
concat (x ∷ xs) = x ++ concat xs

-- `%q` of a text with nothing to escape
unfoldable pub quote : String → String
quote s = "\"" ++ (s ++ "\"")

-- `strings.ReplaceAll(s, "\n", "")`
unfoldable pub without_newlines : String → String
without_newlines String.[] = String.[]
without_newlines (String.◌∷◌ c s) =
    let rest = without_newlines s in if eqb (code c) 10 then rest else String.◌∷◌ c rest

pub eqb_of_ne : (s t : String) → s ≢ t → (s == t) ≡ false
eqb_of_ne s t h = ground (arith, eq_iff s t)
