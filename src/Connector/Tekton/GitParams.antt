-- ===== src/Connector/Tekton/GitParams.antt =====
-- `extractGitParams` against a description that looks for the last parameter of a name.
use fluxgate_operator.Prelude.{
  Bool, List, [], ◌∷◌, Option, Option-cases, none, some, String, if◌then◌else◌, ◌≡◌, refl, ◌∙◌,
  Bool-cases, inl, inr,
}
use fluxgate_operator.Connector.Types.{TektonParam, TektonParamValue, TektonPipeline}
use fluxgate_operator.Connector.Tekton.{
  is_url_param, is_branch_param, git_params_from, extract_git_params,
}

-- The text of a parameter's default, where it has one and a name of the given kind.
abbrev default_of : (String → Bool) → TektonParam → Option String
default_of is_kind p = elim p.default [
  | none ↦ none
  | some d ↦ if is_kind p.name then some d.string_val else none
]

abbrev or_else : Option String → Option String → Option String
or_else (some x) other = some x
or_else none other = other

-- The last such text of a list of parameters.
abbrev pub last_default : (String → Bool) → List TektonParam → Option String
last_default is_kind [] = none
last_default is_kind (p ∷ ps) = or_else (last_default is_kind ps) (default_of is_kind p)

abbrev pub with_default : String → Option String → String
with_default d none = d
with_default d (some x) = x

with_default-or_else :
    (d : String) (later now : Option String)
    → with_default d (or_else later now) ≡ with_default (with_default d now) later
with_default-or_else d none now = refl
with_default-or_else d (some x) now = refl

with_default-default_of :
    (d : String) (is_kind : String → Bool) (p : TektonParam) (v : TektonParamValue)
    → p.default ≡ some v
    → with_default d (default_of is_kind p) ≡ (if is_kind p.name then v.string_val else d)
with_default-default_of d is_kind p v h = elim (Bool-cases (is_kind p.name)) [
  | inl on ↦ rw (h, default_of, on) refl
  | inr off ↦ rw (h, default_of, off) refl
]

git_params_from-cons :
    (p : TektonParam) (ps : List TektonParam) (url branch : String)
    → git_params_from (p ∷ ps) url branch
      ≡ git_params_from ps
          (with_default url (default_of is_url_param p))
          (with_default branch (default_of is_branch_param p))
unfolding git_params_from
git_params_from-cons p ps url branch = elim (Option-cases p.default) [
  | inl e ↦ rw (e, git_params_from, default_of) refl
  | inr (v, e) ↦
      rw
        (
          with_default-default_of url is_url_param p v e,
          with_default-default_of branch is_branch_param p v e,
          e,
          git_params_from,
        )
        refl
]

git_params_from-last :
    (ps : List TektonParam) (url branch : String)
    → git_params_from ps url branch ≡ (
      with_default url (last_default is_url_param ps),
      with_default branch (last_default is_branch_param ps),
    )
unfolding git_params_from
git_params_from-last [] url branch = refl
git_params_from-last (p ∷ ps) url branch =
    let (u, b) : Option String × Option String =
      (default_of is_url_param p, default_of is_branch_param p) in
    git_params_from-cons p ps url branch
    ∙ git_params_from-last ps (with_default url u) (with_default branch b)
    ∙ rw
        (
          with_default-or_else url (last_default is_url_param ps) u,
          with_default-or_else branch (last_default is_branch_param ps) b,
        )
        refl

-- The URL and the branch of a pipeline are the texts of the last parameters with a default whose names are
-- those for a URL and for a branch, and empty where there is none: a later parameter overrides an earlier
-- one, also by an empty text.
pub extract_git_params-last :
    (pipeline : TektonPipeline)
    → extract_git_params pipeline ≡ (
      with_default "" (last_default is_url_param pipeline.spec.params),
      with_default "" (last_default is_branch_param pipeline.spec.params),
    )
unfolding extract_git_params
extract_git_params-last pipeline = git_params_from-last pipeline.spec.params "" ""
