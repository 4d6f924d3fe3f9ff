-- ===== src/Controller/Analysis/Naming/Laws.antt =====
-- What `sanitizeName` returns.
use Prim.Native.Nat.{compare, Ordering}
use Prim.Native.String
use Prim.Native.String.{len, slice}
use Prim.Native.String.len as LenClauses
use Prim.Native.String.slice as SliceClauses
use Prim.Native.Char.{len_utf8}
use fluxgate_operator.Prelude.{
  ℕ, ◌+◌, ◌-◌, ◌≤◌, ◌<◌, Bool, true, false, ◌&&◌, Char, code, String, Unicode, ltb, to_lower,
  if◌then◌else◌, ◌≡◌, ◌⊎◌, refl, arith, Bool-cases, inl, inr,
}
use fluxgate_operator.Controller.Analysis.Naming.{
  is_name_code, dash, replace_others, is_trimmed, trim_left, trim_right, is_nil, trim,
  sanitize_name,
}

-- Every character of the text passes the test.
abbrev pub Each : (ℕ → Bool) → String → Type 0
Each p String.[] = Unit
Each p (String.◌∷◌ c s) = (p (code c) ≡ true) × Each p s

-- The first character, if there is one, is neither a dash nor a dot.
abbrev pub StartsPlain : String → Type 0
StartsPlain String.[] = Unit
StartsPlain (String.◌∷◌ c s) = is_trimmed (code c) ≡ false

-- The last character, if there is one, is neither a dash nor a dot.
abbrev pub EndsPlain : String → Type 0
EndsPlain String.[] = Unit
EndsPlain (String.◌∷◌ c String.[]) = is_trimmed (code c) ≡ false
EndsPlain (String.◌∷◌ c (String.◌∷◌ d s)) = EndsPlain (String.◌∷◌ d s)

replace_others-Each : (s : String) → Each is_name_code (replace_others s)
unfolding replace_others
replace_others-Each String.[] = tt
replace_others-Each (String.◌∷◌ c s) = (kept c, replace_others-Each s)
  where
    kept : (c : Char) → is_name_code (code (if is_name_code (code c) then c else dash)) ≡ true
    kept c = elim (Bool-cases (is_name_code (code c))) [
      | inl good ↦ rw good good
      | inr bad ↦ rw bad (unfold is_name_code dash in refl)
    ]

trim_left-Each : (p : ℕ → Bool) (s : String) → Each p s → Each p (trim_left s)
unfolding trim_left
trim_left-Each p String.[] h = tt
trim_left-Each p (String.◌∷◌ c s) (q, h) = ground (arith, trim_left-Each p s h)

trim_left-StartsPlain : (s : String) → StartsPlain (trim_left s)
unfolding trim_left
trim_left-StartsPlain String.[] = tt
trim_left-StartsPlain (String.◌∷◌ c s) = ground (arith, trim_left-StartsPlain s)

trim_right-Each : (p : ℕ → Bool) (s : String) → Each p s → Each p (trim_right s)
unfolding trim_right
trim_right-Each p String.[] h = tt
trim_right-Each p (String.◌∷◌ c s) (q, h) = ground (arith, trim_right-Each p s h)

trim_right-StartsPlain : (s : String) → StartsPlain s → StartsPlain (trim_right s)
unfolding trim_right
trim_right-StartsPlain String.[] h = tt
trim_right-StartsPlain (String.◌∷◌ c s) h = rw h h

EndsPlain-cons :
    (c : Char) (s : String)
    → EndsPlain s
    → (is_trimmed (code c) && is_nil s) ≡ false
    → EndsPlain (String.◌∷◌ c s)
EndsPlain-cons c String.[] h k = ground arith
EndsPlain-cons c (String.◌∷◌ d s) h k = h

trim_right-EndsPlain : (s : String) → EndsPlain (trim_right s)
unfolding trim_right
trim_right-EndsPlain String.[] = tt
trim_right-EndsPlain (String.◌∷◌ c s) =
    elim (Bool-cases (is_trimmed (code c) && is_nil (trim_right s))) [
      | inl gone ↦ rw gone tt
      | inr stays ↦ rw stays (EndsPlain-cons c (trim_right s) (trim_right-EndsPlain s) stays)
    ]

-- `slice` on a text that begins with a character, as a path.
slice-cons :
    (c : Char) (s : String) (n : ℕ)
    → slice (String.◌∷◌ c s) 0 n
      ≡ String.fits (compare (len_utf8 c) n) c (slice s 0 (n - len_utf8 c))
slice-cons c s n = λ i. SliceClauses.cons-zero c s n i

len-cons : (c : Char) (s : String) → len (String.◌∷◌ c s) ≡ len_utf8 c + len s
len-cons c s = λ i. LenClauses.cons c s i

fits-cases :
    (o : Ordering) (a n : ℕ) (c : Char) (s : String)
    → compare a n ≡ o
    → (String.fits o c s ≡ String.[]) ⊎ ((String.fits o c s ≡ String.◌∷◌ c s) × (a ≤ n))
fits-cases Ordering.lt a n c s e = inr (refl, ground arith)
fits-cases Ordering.eq a n c s e = inr (refl, ground arith)
fits-cases Ordering.gt a n c s e = inl refl

-- A slice from the start is empty, or begins with the first character, which then fits.
slice-cases :
    (c : Char) (s : String) (n : ℕ)
    → (slice (String.◌∷◌ c s) 0 n ≡ String.[])
      ⊎ ((slice (String.◌∷◌ c s) 0 n ≡ String.◌∷◌ c (slice s 0 (n - len_utf8 c)))
          × (len_utf8 c ≤ n))
slice-cases c s n =
    rw slice-cons
      (fits-cases (compare (len_utf8 c) n) (len_utf8 c) n c (slice s 0 (n - len_utf8 c)) refl)

slice-nil : (n : ℕ) → slice String.[] 0 n ≡ String.[]
slice-nil n = λ i. SliceClauses.nil 0 n i

len-slice-le : (s : String) (n : ℕ) → len (slice s 0 n) ≤ n
len-slice-le String.[] n = rw slice-nil (omega arith)
len-slice-le (String.◌∷◌ c s) n = elim (slice-cases c s n) [
  | inl none_fits ↦ rw none_fits (omega arith)
  | inr (some_fit, le) ↦ rw (some_fit, len-cons) (omega (arith, len-slice-le s (n - len_utf8 c)))
]

slice-Each : (p : ℕ → Bool) (s : String) (n : ℕ) → Each p s → Each p (slice s 0 n)
slice-Each p String.[] n h = rw slice-nil tt
slice-Each p (String.◌∷◌ c s) n (q, h) = elim (slice-cases c s n) [
  | inl none_fits ↦ rw none_fits tt
  | inr (some_fit, le) ↦ rw some_fit (q, slice-Each p s (n - len_utf8 c) h)
]

slice-StartsPlain : (s : String) (n : ℕ) → StartsPlain s → StartsPlain (slice s 0 n)
slice-StartsPlain String.[] n h = rw slice-nil tt
slice-StartsPlain (String.◌∷◌ c s) n h = elim (slice-cases c s n) [
  | inl none_fits ↦ rw none_fits tt
  | inr (some_fit, le) ↦ rw some_fit h
]

-- The name before it is cut.
abbrev trimmed : Unicode → String → String
trimmed u s = trim (replace_others (to_lower u s))

trimmed-Each : (u : Unicode) (s : String) → Each is_name_code (trimmed u s)
unfolding trim
trimmed-Each u s =
    trim_right-Each is_name_code _
      (trim_left-Each is_name_code _ (replace_others-Each (to_lower u s)))

trimmed-StartsPlain : (u : Unicode) (s : String) → StartsPlain (trimmed u s)
unfolding trim
trimmed-StartsPlain u s = trim_right-StartsPlain _ (trim_left-StartsPlain _)

trimmed-EndsPlain : (u : Unicode) (s : String) → EndsPlain (trimmed u s)
unfolding trim
trimmed-EndsPlain u s = trim_right-EndsPlain _

-- Whatever the text: a sanitized name has only lower-case letters, digits, dashes and dots, does not
-- begin with a dash or a dot, and has at most 253 bytes; and it does not end with a dash or a dot
-- either, unless it was cut to 253 bytes.
pub sanitize_name-IsName :
    (u : Unicode) (s : String)
    → Each is_name_code (sanitize_name u s)
      × StartsPlain (sanitize_name u s)
      × (len (sanitize_name u s) ≤ 253)
      × (EndsPlain (sanitize_name u s) ⊎ (253 < len (trim (replace_others (to_lower u s)))))
unfolding sanitize_name
sanitize_name-IsName u s = elim (Bool-cases (ltb 253 (len (trimmed u s)))) [
  | inl long ↦ rw long (
    slice-Each is_name_code (trimmed u s) 253 (trimmed-Each u s),
    slice-StartsPlain (trimmed u s) 253 (trimmed-StartsPlain u s),
    len-slice-le (trimmed u s) 253,
    inr (ground arith),
  )
  | inr short ↦
      rw short
        (trimmed-Each u s, trimmed-StartsPlain u s, ground arith, inl (trimmed-EndsPlain u s))
]
