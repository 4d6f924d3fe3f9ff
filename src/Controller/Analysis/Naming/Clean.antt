-- ===== src/Controller/Analysis/Naming/Clean.antt =====
-- `sanitizeName` on names that are clean already.
use Prim.Native.String.{len, slice}
use fluxgate_operator.Prelude.{
  true, Char, code, String, Unicode, leb, lower_char, to_lower, if◌then◌else◌, ◌≡◌, refl, arith,
}
use fluxgate_operator.Controller.Analysis.Naming.{
  is_name_code, replace_others, trim_left, trim_right, trim, sanitize_name,
}
use fluxgate_operator.Controller.Analysis.Naming.Laws.{Each, StartsPlain, EndsPlain}

lower_char-name : (u : Unicode) (c : Char) → is_name_code (code c) ≡ true → lower_char u c ≡ c
unfolding lower_char is_name_code
lower_char-name u c h = ground arith

to_lower-name : (u : Unicode) (s : String) → Each is_name_code s → to_lower u s ≡ s
unfolding to_lower
to_lower-name u String.[] h = refl
to_lower-name u (String.◌∷◌ c s) (q, h) = rw (lower_char-name u c q, to_lower-name u s h)

replace_others-name : (s : String) → Each is_name_code s → replace_others s ≡ s
unfolding replace_others
replace_others-name String.[] h = refl
replace_others-name (String.◌∷◌ c s) (q, h) = rw (q, replace_others-name s h)

trim_left-plain : (s : String) → StartsPlain s → trim_left s ≡ s
unfolding trim_left
trim_left-plain String.[] h = refl
trim_left-plain (String.◌∷◌ c s) h = rw h

trim_right-plain : (s : String) → EndsPlain s → trim_right s ≡ s
unfolding trim_right
trim_right-plain String.[] h = refl
trim_right-plain (String.◌∷◌ c String.[]) h = rw h
trim_right-plain (String.◌∷◌ c (String.◌∷◌ d s)) h =
    rw (trim_right-plain (String.◌∷◌ d s) h) (ground arith)

-- A text of name characters that begins and ends plainly is its own name if it has at most 253 bytes.
-- If it has more, it is cut after 253 bytes, whatever stands there: a dash or a dot that comes to stand
-- at the end is not trimmed again.
sanitize_name-clean :
    (u : Unicode) (s : String)
    → Each is_name_code s
    → StartsPlain s
    → EndsPlain s
    → sanitize_name u s ≡ (if leb (len s) 253 then s else slice s 0 253)
unfolding sanitize_name trim
sanitize_name-clean u s each starts ends =
    let same : trim_right (trim_left (replace_others (to_lower u s))) ≡ s = rw (
      to_lower-name u s each,
      replace_others-name s each,
      trim_left-plain s starts,
      trim_right-plain s ends,
    ) in
    rw same (ground arith)
