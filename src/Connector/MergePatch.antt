-- ===== src/Connector/MergePatch.antt =====
-- The merge patches of `Suspend` and `Resume`, and what they do to an object by RFC 7386, by which the
-- API server applies them.
use fluxgate_operator.Prelude.{
  Bool, true, Option, none, some, String, ◌==◌, eq_refl, if◌then◌else◌, ◌≡◌, refl, ap, ◌∙◌,
  Bool-cases, inl, inr, ℤ,
}
use fluxgate_operator.Json.{Json, Fields, Items, arr, null, bool, num, str, obj, end, field, single}
use fluxgate_operator.Connector.ArgoCd.{
  automated_patch, argo_cd_suspend_patch, argo_cd_resume_patch,
}

abbrev pub field_at : String → Fields → Option Json
field_at k end = none
field_at k (field j v fs) = if j == k then some v else field_at k fs

-- The value of a key of an object; another value has no keys.
abbrev pub at : String → Json → Option Json
at k (obj fs) = field_at k fs
at k null = none
at k (bool b) = none
at k (num n) = none
at k (str s) = none
at k (arr xs) = none

abbrev pub or_null : Option Json → Json
or_null none = null
or_null (some v) = v

-- The value under a key, null where there is none.
abbrev pub under : String → Json → Json
under k t = or_null (at k t)

abbrev pub NodupFields : Fields → Type 0
NodupFields end = Unit
NodupFields (field k v fs) = (field_at k fs ≡ none) × NodupFields fs

-- What becomes of a key's value by the patch's value for it: null removes it.
abbrev pub patched : (Json → Json → Json) → Option Json → Option Json → Option Json
patched apply none old = old
patched apply (some null) old = none
patched apply (some (bool b)) old = some (apply (or_null old) (bool b))
patched apply (some (num n)) old = some (apply (or_null old) (num n))
patched apply (some (str s)) old = some (apply (or_null old) (str s))
patched apply (some (arr xs)) old = some (apply (or_null old) (arr xs))
patched apply (some (obj fs)) old = some (apply (or_null old) (obj fs))

-- `apply target patch` as RFC 7386 has it, seen through the values of keys.
pub record IsMergePatch (apply : Json → Json → Json) : Type 0 where
  pub at-object :
      (t : Json) (fs : Fields)
      → NodupFields fs
      → (k : String) → at k (apply t (obj fs)) ≡ patched apply (field_at k fs) (at k t)
  pub on_bool : (t : Json) (b : Bool) → apply t (bool b) ≡ bool b
  pub on_num : (t : Json) (n : ℤ) → apply t (num n) ≡ num n
  pub on_str : (t : Json) (s : String) → apply t (str s) ≡ str s
  pub on_arr : (t : Json) (xs : Items) → apply t (arr xs) ≡ arr xs

-- All keys but one have the same values.
abbrev pub SameBut : String → Json → Json → Type 0
SameBut k a b = (j : String) → at j a ≡ (if k == j then at j a else at j b)

SameBut-trans : (k : String) (a b c : Json) → SameBut k a b → SameBut k b c → SameBut k a c
SameBut-trans k a b c h h' j = elim (Bool-cases (k == j)) [
  | inl same ↦ rw same
  | inr other ↦ rw other ((rw other at (h j)) ∙ (rw other at (h' j)))
]

module _ (apply : Json → Json → Json) (rfc : IsMergePatch apply) where
  at-single_obj :
      (k : String) (t : Json) (fs : Fields)
      → at k (apply t (single k (obj fs))) ≡ some (apply (under k t) (obj fs))
  at-single_obj k t fs = rfc.at-object t (field k (obj fs) end) (refl, tt) k ∙ rw (eq_refl k)

  at-single_null : (k : String) (t : Json) → at k (apply t (single k null)) ≡ none
  at-single_null k t = rfc.at-object t (field k null end) (refl, tt) k ∙ rw (eq_refl k)

  SameBut-single : (k : String) (t v : Json) → SameBut k (apply t (single k v)) t
  SameBut-single k t v j = elim (Bool-cases (k == j)) [
    | inl same ↦ rw same
    | inr other ↦ rw other (rfc.at-object t (field k v end) (refl, tt) j ∙ rw other)
  ]

  -- A patch of one key of an object under "spec" and "syncPolicy".
  module _ (app v : Json) where
    abbrev synced : Json → Json
    synced t = under "syncPolicy" (under "spec" t)

    spec_of :
        under "spec" (apply app (automated_patch v))
        ≡ apply (under "spec" app) (single "syncPolicy" (single "automated" v))
    spec_of = ap or_null (at-single_obj "spec" app (field "syncPolicy" (single "automated" v) end))

    synced_of : synced (apply app (automated_patch v)) ≡ apply (synced app) (single "automated" v)
    synced_of =
        ap (under "syncPolicy") spec_of
        ∙ ap or_null (at-single_obj "syncPolicy" (under "spec" app) (field "automated" v end))

    -- All but "automated" is kept.
    automated_patch-SameBut :
        let t = apply app (automated_patch v) in
        SameBut "spec" t app
        × SameBut "syncPolicy" (under "spec" t) (under "spec" app)
        × SameBut "automated" (synced t) (synced app)
    automated_patch-SameBut = (
      SameBut-single "spec" app (single "syncPolicy" (single "automated" v)),
      rw spec_of (SameBut-single "syncPolicy" (under "spec" app) (single "automated" v)),
      rw synced_of (SameBut-single "automated" (synced app) v),
    )

  suspended-automated :
      (app : Json)
      → at "automated" (under "syncPolicy" (under "spec" (apply app argo_cd_suspend_patch))) ≡ none
  suspended-automated app = rw (synced_of app null) (at-single_null "automated" _)

  abbrev on_fields : Fields
  on_fields = field "prune" (bool true) (field "selfHeal" (bool true) end)

  resumed-automated :
      (app : Json)
      → at "automated" (under "syncPolicy" (under "spec" app)) ≡ none
      → under "automated" (under "syncPolicy" (under "spec" (apply app argo_cd_resume_patch)))
        ≡ apply null (obj on_fields)
  resumed-automated app gone =
      ap (under "automated") (synced_of app (obj on_fields))
      ∙ ap or_null (at-single_obj "automated" (under "syncPolicy" (under "spec" app)) on_fields)
      ∙ ap (λ x. apply (or_null x) (obj on_fields)) gone

  apply-on_fields :
      (k : String)
      → at k (apply null (obj on_fields)) ≡ (
          if "prune" == k
          then some (bool true)
          else if "selfHeal" == k
          then some (bool true)
          else none)
  apply-on_fields k = rfc.at-object null on_fields (refl, (refl, tt)) k ∙ choose
    where
      choose : patched apply (field_at k on_fields) none ≡ (
          if "prune" == k
          then some (bool true)
          else if "selfHeal" == k
          then some (bool true)
          else none)
      choose = elim (Bool-cases ("prune" == k)) [
        | inl p ↦ rw p (ap some (rfc.on_bool null true))
        | inr p ↦ elim (Bool-cases ("selfHeal" == k)) [
          | inl h ↦ rw (p, h) (ap some (rfc.on_bool null true))
          | inr h ↦ rw (p, h)
        ]
      ]

  -- Where patches are applied by RFC 7386: an ArgoCD application that is suspended has no automated sync,
  -- and one that is resumed after that has an automated sync with prune and selfHeal on and no other
  -- option, whatever it had before the suspension, also where it had none. All else of the application
  -- is as it was, after the suspension and after the resumption.
  pub argo_cd-suspend_resume :
      (app : Json)
      → let suspended = apply app argo_cd_suspend_patch in
        let resumed = apply suspended argo_cd_resume_patch in
        let sync : Json → Json = λ t. under "syncPolicy" (under "spec" t) in
        (at "automated" (sync suspended) ≡ none)
        × ((k : String)
            → at k (under "automated" (sync resumed)) ≡ (
                if "prune" == k
                then some (bool true)
                else if "selfHeal" == k
                then some (bool true)
                else none))
        × SameBut "spec" suspended app
        × SameBut "syncPolicy" (under "spec" suspended) (under "spec" app)
        × SameBut "automated" (sync suspended) (sync app)
        × SameBut "spec" resumed app
        × SameBut "syncPolicy" (under "spec" resumed) (under "spec" app)
        × SameBut "automated" (sync resumed) (sync app)
  argo_cd-suspend_resume app =
      let suspended = apply app argo_cd_suspend_patch in
      let (a, b, c) = automated_patch-SameBut app null in
      let (d, e, f) = automated_patch-SameBut suspended (obj on_fields) in
      let gone = suspended-automated app in
      (
        gone,
        λ k. ap (at k) (resumed-automated suspended gone) ∙ apply-on_fields k,
        a,
        b,
        c,
        SameBut-trans "spec" _ suspended app d a,
        SameBut-trans "syncPolicy" _ (under "spec" suspended) (under "spec" app) e b,
        SameBut-trans "automated" _ (under "syncPolicy" (under "spec" suspended))
            (under "syncPolicy" (under "spec" app)) f c,
      )
