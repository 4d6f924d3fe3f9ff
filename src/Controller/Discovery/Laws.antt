-- ===== src/Controller/Discovery/Laws.antt =====
-- What the registry holds after sources were registered.
use fluxgate_operator.Prelude.{
  false, List, [], ◌∷◌, NodupKeys, lookup, insert, lookup-insert, insert-NodupKeys, none, some,
  Option-cases, String, ◌==◌, eq_iff, texts, eq_refl, print_slice, if◌then◌else◌, ◌≡◌, ◌⊎◌, refl,
  sym, ap, ◌∙◌, inl, inr, Bool-cases, All,
}
use fluxgate_operator.Connector.Types.{PipelineSource}
use fluxgate_operator.Controller.Discovery.{
  Registry, put, get, source_changed, register, register_all,
}

-- Equal in what `sourceChanged` compares: the repository, the branch and the printed paths.
abbrev pub IsSameSource : PipelineSource → PipelineSource → Type 0
IsSameSource a b =
    (a.repository ≡ b.repository)
    × (a.branch ≡ b.branch)
    × (print_slice a.paths ≡ print_slice b.paths)

source_changed-IsSameSource : (a b : PipelineSource) → source_changed a b ≡ false → IsSameSource a b
unfolding source_changed
source_changed-IsSameSource a b h = grind texts

source_changed-false : (a b : PipelineSource) → IsSameSource a b → source_changed a b ≡ false
unfolding source_changed
source_changed-false a b (r, br, p) =
    rw (r, br, p, eq_refl b.repository, eq_refl b.branch, eq_refl (print_slice b.paths))

register-fresh :
    (src : PipelineSource) (r : Registry) → get src.name r ≡ none → register src r ≡ put src r
unfolding register
register-fresh src r fresh = rw (fresh, register)

register-found :
    (src old : PipelineSource) (r : Registry)
    → get src.name r ≡ some old
    → register src r ≡ (if source_changed old src then put src r else r)
unfolding register
register-found src old r found = rw (found, register)

-- Registering either stores the source, or finds one that it takes for the same and stores nothing.
pub register-cases :
    (src : PipelineSource) (r : Registry)
    → (register src r ≡ put src r)
      ⊎ ((old : PipelineSource) × (get src.name r ≡ some old)
          × IsSameSource old src
          × (register src r ≡ r))
register-cases src r = elim (Option-cases (get src.name r)) [
  | inl fresh ↦ inl (register-fresh src r fresh)
  | inr (old, found) ↦ elim (Bool-cases (source_changed old src)) [
    | inl changed ↦ inl (register-found src old r found ∙ rw changed)
    | inr same ↦ inr (
      old,
      found,
      source_changed-IsSameSource old src same,
      register-found src old r found ∙ rw same,
    )
  ]
]

pub lookup-put :
    (src : PipelineSource) (r : Registry) (k : String)
    → lookup k (put src r) ≡ (if src.name == k then some src else lookup k r)
unfolding put
lookup-put src r k = lookup-insert src.name k src r

pub lookup-register_ne :
    (src : PipelineSource) (r : Registry) (k : String)
    → (src.name == k) ≡ false
    → lookup k (register src r) ≡ lookup k r
lookup-register_ne src r k other = elim (register-cases src r) [
  | inl stored ↦ rw (stored, lookup-put src r k, other)
  | inr (old, found, same, kept) ↦ rw kept
]

-- After a source is registered, the registry has a source under its name that agrees with it on the
-- repository, the branch and the printed paths, and every other name has the source that it had.
pub get-register :
    (src : PipelineSource) (r : Registry)
    → ((now : PipelineSource) × (get src.name (register src r) ≡ some now) × IsSameSource now src)
      × ((k : String)
          → get k (register src r)
            ≡ (if src.name == k then get src.name (register src r) else get k r))
unfolding get
get-register src r = (
  elim (register-cases src r) [
    | inl stored ↦
        (src, rw (stored, lookup-put src r src.name, eq_refl src.name), (refl, refl, refl))
    | inr (old, found, same, kept) ↦ (old, rw kept found, same)
  ],
  λ k. elim (Bool-cases (src.name == k)) [
    | inl here ↦ rw here (ap (λ x. lookup x (register src r)) (sym ((eq_iff src.name k).0 here)))
    | inr other ↦ rw other (lookup-register_ne src r k other)
  ],
)

-- A source that the registry has under its name with the same repository, branch and printed paths is
-- kept as it was, whatever else of the source has changed: its namespaces, labels, kind and paths that
-- print alike.
pub register-stale :
    (src old : PipelineSource) (r : Registry)
    → get src.name r ≡ some old
    → IsSameSource old src
    → register src r ≡ r
register-stale src old r found same =
    register-found src old r found ∙ rw (source_changed-false old src same)

-- Registering a source a second time changes nothing.
register_idem :
    (src : PipelineSource) (r : Registry) → register src (register src r) ≡ register src r
register_idem src r =
    let (now, found, same) = (get-register src r).0 in
    register-stale src now (register src r) found same

-- Each source is stored under its own name.
abbrev pub IsKeyed : Registry → Type 0
IsKeyed r = All (λ (k, src). src.name ≡ k) r

put-IsKeyed : (src : PipelineSource) (r : Registry) → IsKeyed r → IsKeyed (put src r)
unfolding put insert
put-IsKeyed src [] h = (refl, tt)
put-IsKeyed src ((k, old) ∷ r) (named, h) = grind (texts, put-IsKeyed src r h)

put-NodupKeys : (src : PipelineSource) (r : Registry) → NodupKeys r → NodupKeys (put src r)
unfolding put
put-NodupKeys src r u = insert-NodupKeys src.name src r u

-- Whatever is registered, in any order, and from a registry that is so: no name is twice in the registry,
-- and each source is stored under its own name.
pub register_all-IsKeyed :
    (srcs : List PipelineSource) (r : Registry)
    → NodupKeys r × IsKeyed r
    → NodupKeys (register_all srcs r) × IsKeyed (register_all srcs r)
unfolding register_all
register_all-IsKeyed [] r h = h
register_all-IsKeyed (src ∷ srcs) r (u, h) =
    register_all-IsKeyed srcs (register src r) (elim (register-cases src r) [
      | inl stored ↦ rw stored (put-NodupKeys src r u, put-IsKeyed src r h)
      | inr (old, found, same, kept) ↦ rw kept (u, h)
    ])
