-- ===== src/Connector/Tekton/ParamValue/Laws.antt =====
-- Which defaults of parameters can be read, and that what is written is read back.
use fluxgate_operator.Prelude.{
  Result, Result-cases, ok, err, Unicode, String, ◌==◌, eq_iff, ◌>>=◌, ◌≡◌, ◌↔◌, refl, ap, sym, ◌∙◌,
  inl, inr, Bool-cases,
}
use fluxgate_operator.Json.{Json, Fields, null, bool, num, str, arr, obj, end, field}
use fluxgate_operator.Connector.Types.{TektonParamValue}
use fluxgate_operator.Connector.Tekton.ParamValue.{
  unmarshal_text, Key, type_key, string_val_key, unknown_key, key_of, set_field, set_fields,
  unmarshal_raw, unmarshal_json, zero_value, marshal_json,
}

-- A default that is marshalled by the tags of the struct is read back as it was, empty texts included.
pub unmarshal_json-marshal_json :
    (u : Unicode) (v : TektonParamValue) → unmarshal_json u (marshal_json v) ≡ ok v
unfolding unmarshal_json marshal_json unmarshal_text unmarshal_raw set_fields set_field
unmarshal_json-marshal_json u v =
    let value : String → String → Result TektonParamValue =
      λ t x. ok (record { type = t; string_val = x }) in
    elim (Bool-cases (v.type == "")) [
      | inl no_type ↦ elim (Bool-cases (v.string_val == "")) [
        | inl no_text ↦
            rw (no_type, no_text)
              (ap (λ t. value t "") (sym ((eq_iff v.type "").0 no_type))
                ∙ ap (value v.type) (sym ((eq_iff v.string_val "").0 no_text)))
        | inr text ↦
            rw (no_type, text) (ap (λ t. value t v.string_val) (sym ((eq_iff v.type "").0 no_type)))
      ]
      | inr type ↦ elim (Bool-cases (v.string_val == "")) [
        | inl no_text ↦
            rw (type, no_text) (ap (value v.type) (sym ((eq_iff v.string_val "").0 no_text)))
        | inr text ↦ rw (type, text) refl
      ]
    ]

abbrev pub IsText : Json → Type 0
IsText (str s) = Unit
IsText null = Unit
IsText (bool b) = ⊥
IsText (num n) = ⊥
IsText (arr xs) = ⊥
IsText (obj fs) = ⊥

abbrev pub Fits : Key → Json → Type 0
Fits type_key j = IsText j
Fits string_val_key j = IsText j
Fits unknown_key j = Unit

abbrev pub AllFit : Unicode → Fields → Type 0
AllFit u end = Unit
AllFit u (field k j fs) = Fits (key_of u k) j × AllFit u fs

-- A text, null, or an object whose keys for the two fields have a text or null.
abbrev pub IsDefault : Unicode → Json → Type 0
IsDefault u (str s) = Unit
IsDefault u null = Unit
IsDefault u (obj fs) = AllFit u fs
IsDefault u (bool b) = ⊥
IsDefault u (num n) = ⊥
IsDefault u (arr xs) = ⊥

abbrev IsRead : {A : Type 0} → Result A → Type 0
IsRead {A} r = (a : A) × (r ≡ ok a)

unmarshal_text_iff : (old : String) (j : Json) → IsRead (unmarshal_text old j) ↔ IsText j
unfolding unmarshal_text
unmarshal_text_iff old (str s) = ((λ r. tt), (λ t. (s, refl)))
unmarshal_text_iff old null = ((λ r. tt), (λ t. (old, refl)))
unmarshal_text_iff old (bool b) = ((λ (s, h). cc), (λ t. elim t [ ]))
unmarshal_text_iff old (num n) = ((λ (s, h). cc), (λ t. elim t [ ]))
unmarshal_text_iff old (arr xs) = ((λ (s, h). cc), (λ t. elim t [ ]))
unmarshal_text_iff old (obj fs) = ((λ (s, h). cc), (λ t. elim t [ ]))

bind_iff : {A B : Type 0} (r : Result A) (f : A → B) → IsRead (r >>= λ a. ok (f a)) ↔ IsRead r
bind_iff (ok a) f = ((λ h. (a, refl)), (λ h. (f a, refl)))
bind_iff (err e) f = ((λ (b, h). cc), (λ (a, h). cc))

set_field_iff : (c : Key) (j : Json) (v : TektonParamValue) → IsRead (set_field c j v) ↔ Fits c j
unfolding set_field
set_field_iff type_key j v =
    let (there, back) = bind_iff (unmarshal_text v.type j) (λ s. record v { type = s }) in
    let (fits, read) = unmarshal_text_iff v.type j in ((λ h. fits (there h)), (λ h. back (read h)))
set_field_iff string_val_key j v =
    let (there, back) =
      bind_iff (unmarshal_text v.string_val j) (λ s. record v { string_val = s }) in
    let (fits, read) = unmarshal_text_iff v.string_val j in
    ((λ h. fits (there h)), (λ h. back (read h)))
set_field_iff unknown_key j v = ((λ h. tt), (λ h. (v, refl)))

set_fields_iff :
    (u : Unicode) (fs : Fields) (v : TektonParamValue) → IsRead (set_fields u fs v) ↔ AllFit u fs
unfolding set_fields
set_fields_iff u end v = ((λ h. tt), (λ h. (v, refl)))
set_fields_iff u (field k j fs) v =
    let (fits, read) = set_field_iff (key_of u k) j v in
    elim (Result-cases (set_field (key_of u k) j v)) [
      | inl (e, bad) ↦ (
        (λ (x, h). cc (rw (set_fields, bad) at h)),
        (λ (fit, all_fit). let (x, good) = read fit in cc),
      )
      | inr (v', good) ↦
          let (all_fit, all_read) = set_fields_iff u fs v' in
          (
            (λ h. (fits (v', good), all_fit (rw (set_fields, good) at h))),
            (λ (fit, rest). rw (set_fields, good) (all_read rest)),
          )
    ]

-- Exactly these defaults can be read: a text, null, and an object in which every key for the type or the
-- text, in whatever case it is written, has a text or null. A number, a truth value and an array cannot,
-- so that a parameter with an array for its default makes the decoding fail.
pub unmarshal_json-ok_iff :
    (u : Unicode) (j : Json)
    → ((v : TektonParamValue) × (unmarshal_json u j ≡ ok v)) ↔ IsDefault u j
unfolding unmarshal_json unmarshal_text unmarshal_raw
unmarshal_json-ok_iff u (str s) = ((λ h. tt), (λ h. (_, refl)))
unmarshal_json-ok_iff u null = ((λ h. tt), (λ h. (_, refl)))
unmarshal_json-ok_iff u (obj fs) = set_fields_iff u fs zero_value
unmarshal_json-ok_iff u (bool b) = ((λ (v, h). cc), (λ h. elim h [ ]))
unmarshal_json-ok_iff u (num n) = ((λ (v, h). cc), (λ h. elim h [ ]))
unmarshal_json-ok_iff u (arr xs) = ((λ (v, h). cc), (λ h. elim h [ ]))
