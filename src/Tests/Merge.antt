-- ===== src/Tests/Merge.antt =====
-- Merge patches as a function, and the patches of the connectors on an application.
use fluxgate_operator.Prelude.{
  true, false, none, some, String, ◌==◌, eq_iff, texts, if◌then◌else◌, ◌≡◌, refl, sym, ap, ◌∙◌,
  arith, Bool-cases, inl, inr,
}
use fluxgate_operator.Json.{arr, Json, Fields, null, bool, num, str, obj, end, field, single}
use fluxgate_operator.Connector.ArgoCd.{argo_cd_suspend_patch, argo_cd_resume_patch}
use fluxgate_operator.Connector.MergePatch.{
  field_at, at, or_null, under, patched, IsMergePatch, SameBut, argo_cd-suspend_resume,
}

unfoldable remove_field : String → Fields → Fields
remove_field k end = end
remove_field k (field j v fs) =
    let rest = remove_field k fs in if j == k then rest else field j v rest

field_at-remove_field :
    (j k : String) (fs : Fields)
    → field_at k (remove_field j fs) ≡ (if j == k then none else field_at k fs)
unfolding remove_field
field_at-remove_field j k end = ground arith
field_at-remove_field j k (field i v fs) = grind (texts, field_at-remove_field j k fs)

abbrev fields_of : Json → Fields
fields_of (obj fs) = fs
fields_of null = end
fields_of (bool b) = end
fields_of (num n) = end
fields_of (str s) = end
fields_of (arr xs) = end

unfoldable mutual
  merge : Json → Json → Json
  merge t null = null
  merge t (bool b) = bool b
  merge t (num n) = num n
  merge t (str s) = str s
  merge t (arr xs) = arr xs
  merge t (obj fs) = obj (merge_fields (fields_of t) fs)

  merge_fields : Fields → Fields → Fields
  merge_fields old end = old
  merge_fields old (field k null fs) = remove_field k (merge_fields old fs)
  merge_fields old (field k (bool b) fs) = field k (bool b) (remove_field k (merge_fields old fs))
  merge_fields old (field k (num n) fs) = field k (num n) (remove_field k (merge_fields old fs))
  merge_fields old (field k (str s) fs) = field k (str s) (remove_field k (merge_fields old fs))
  merge_fields old (field k (arr xs) fs) = field k (arr xs) (remove_field k (merge_fields old fs))
  merge_fields old (field k (obj gs) fs) =
      field k (merge (or_null (field_at k old)) (obj gs)) (remove_field k (merge_fields old fs))

field_at-fields_of : (k : String) (t : Json) → field_at k (fields_of t) ≡ at k t
field_at-fields_of k (obj fs) = refl
field_at-fields_of k null = refl
field_at-fields_of k (bool b) = refl
field_at-fields_of k (num n) = refl
field_at-fields_of k (str s) = refl
field_at-fields_of k (arr xs) = refl

-- A field that is put before the rest, without its key.
field_at-put :
    (j k : String) (v : Json) (fs : Fields)
    → field_at k (field j v (remove_field j fs)) ≡ (if j == k then some v else field_at k fs)
field_at-put j k v fs = elim (Bool-cases (j == k)) [
  | inl same ↦ rw same
  | inr other ↦ rw other (field_at-remove_field j k fs ∙ rw other)
]

module _ (j k : String) (old fs rest : Fields)
    (later : field_at k rest ≡ patched merge (field_at k fs) (field_at k old)) where
  put_case :
      (v u : Json)
      → patched merge (some v) (field_at j old) ≡ some u
      → field_at k (field j u (remove_field j rest))
        ≡ patched merge (field_at k (field j v fs)) (field_at k old)
  put_case v u h = field_at-put j k u rest ∙ (elim (Bool-cases (j == k)) [
    | inl same ↦
        rw same
          (sym (ap (λ i. patched merge (some v) (field_at i old)) (sym ((eq_iff j k).0 same)) ∙ h))
    | inr other ↦ rw other later
  ])

  remove_case :
      field_at k (remove_field j rest)
      ≡ patched merge (field_at k (field j null fs)) (field_at k old)
  remove_case =
      field_at-remove_field j k rest
      ∙ (elim (Bool-cases (j == k)) [ inl same ↦ rw same | inr other ↦ rw other later ])

field_at-merge_fields :
    (k : String) (old fs : Fields)
    → field_at k (merge_fields old fs) ≡ patched merge (field_at k fs) (field_at k old)
unfolding merge
field_at-merge_fields k old end = refl
field_at-merge_fields k old (field j null fs) =
    remove_case j k old fs (merge_fields old fs) (field_at-merge_fields k old fs)
field_at-merge_fields k old (field j (bool b) fs) =
    put_case j k old fs (merge_fields old fs) (field_at-merge_fields k old fs) (bool b) (bool b)
      refl
field_at-merge_fields k old (field j (num n) fs) =
    put_case j k old fs (merge_fields old fs) (field_at-merge_fields k old fs) (num n) (num n) refl
field_at-merge_fields k old (field j (str t) fs) =
    put_case j k old fs (merge_fields old fs) (field_at-merge_fields k old fs) (str t) (str t) refl
field_at-merge_fields k old (field j (arr xs) fs) =
    put_case j k old fs (merge_fields old fs) (field_at-merge_fields k old fs) (arr xs) (arr xs)
      refl
field_at-merge_fields k old (field j (obj gs) fs) =
    put_case j k old fs (merge_fields old fs) (field_at-merge_fields k old fs) (obj gs)
      (merge (or_null (field_at j old)) (obj gs)) refl

merge-IsMergePatch : IsMergePatch merge
unfolding merge
merge-IsMergePatch = record {
  at-object = λ t fs u k.
      field_at-merge_fields k (fields_of t) fs
      ∙ ap (patched merge (field_at k fs)) (field_at-fields_of k t);
  on_bool = λ t b. refl;
  on_num = λ t n. refl;
  on_str = λ t s. refl;
  on_arr = λ t xs. refl;
}

-- An application with an automated sync that prunes nothing.
abbrev careful : Json
careful = obj (
    field "metadata" (single "name" (str "shop"))
      (field "spec" (single "syncPolicy" (single "automated" (single "prune" (bool false)))) end))

careful_resumed :
    at "automated" (
      under "syncPolicy"
        (under "spec" (merge (merge careful argo_cd_suspend_patch) argo_cd_resume_patch)))
    ≡ some (obj (field "prune" (bool true) (field "selfHeal" (bool true) end)))
unfolding merge remove_field
careful_resumed = refl

argo_cd-suspend_resume_example :
    let suspended = merge careful argo_cd_suspend_patch in
    let resumed = merge suspended argo_cd_resume_patch in
    let sync : Json → Json = λ t. under "syncPolicy" (under "spec" t) in
    (at "automated" (sync suspended) ≡ none)
    × ((k : String)
        → at k (under "automated" (sync resumed)) ≡ (
            if "prune" == k
            then some (bool true)
            else if "selfHeal" == k
            then some (bool true)
            else none))
    × SameBut "spec" suspended careful
    × SameBut "syncPolicy" (under "spec" suspended) (under "spec" careful)
    × SameBut "automated" (sync suspended) (sync careful)
    × SameBut "spec" resumed careful
    × SameBut "syncPolicy" (under "spec" resumed) (under "spec" careful)
    × SameBut "automated" (sync resumed) (sync careful)
argo_cd-suspend_resume_example = argo_cd-suspend_resume merge merge-IsMergePatch careful
