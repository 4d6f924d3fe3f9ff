-- ===== src/Controller/Analysis/Naming.antt =====
-- internal/controller/analysis_controller.go, `sanitizeName`.
pub mod Laws
pub mod Clean
use fluxgate_operator.Prelude.{
  ℕ, ◌-◌, Bool, true, false, ◌&&◌, ◌||◌, Char, code, String, Unicode, eqb, leb, ltb, to_lower,
  if◌then◌else◌,
}
use Prim.Native.Char.{char}
use Prim.Native.String.{len, slice}

-- The characters that the function keeps.
unfoldable pub is_name_code : ℕ → Bool
is_name_code n =
    (leb b'a' n && leb n b'z') || (leb b'0' n && leb n b'9') || eqb n b'-' || eqb n b'.'

unfoldable pub dash : Char
dash = char 45 tt

-- `strings.Map(…, s)`
unfoldable pub replace_others : String → String
replace_others String.[] = String.[]
replace_others (String.◌∷◌ c s) =
    String.◌∷◌ (if is_name_code (code c) then c else dash) (replace_others s)

-- The cut set "-.".
unfoldable pub is_trimmed : ℕ → Bool
is_trimmed n = eqb n b'-' || eqb n b'.'

unfoldable pub trim_left : String → String
trim_left String.[] = String.[]
trim_left (String.◌∷◌ c s) =
    let rest = trim_left s in if is_trimmed (code c) then rest else String.◌∷◌ c s

abbrev pub is_nil : String → Bool
is_nil String.[] = true
is_nil (String.◌∷◌ c s) = false

-- A trimmed character stays only in front of one that stays.
unfoldable pub trim_right : String → String
trim_right String.[] = String.[]
trim_right (String.◌∷◌ c s) =
    let rest = trim_right s in
    if is_trimmed (code c) && is_nil rest then String.[] else String.◌∷◌ c rest

-- `strings.Trim(s, "-.")`
unfoldable pub trim : String → String
trim s = trim_right (trim_left s)

-- `sanitizeName`; `len` and `slice` count bytes.
unfoldable pub sanitize_name : Unicode → String → String
sanitize_name u s =
    let name = trim (replace_others (to_lower u s)) in
    if ltb 253 (len name) then slice name 0 253 else name
