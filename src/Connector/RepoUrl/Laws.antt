-- ===== src/Connector/RepoUrl/Laws.antt =====
-- Which repository URLs are read, and what their owner and name are made of.
use Prim.Native.String.{count}
use Prim.Native.Char.{char}
use text.Mathlib.TextLemmas.{nil-append, cons-append, append_assoc, length-cons, length-append}
use fluxgate_operator.Prelude.{
  ℕ, true, false, ◌||◌, Char, code, eqb, Option, none, some, String, eq_refl, eqb_of_ne, ◌<>◌, cut,
  split_n, has_prefix, trim_prefix, trim_suffix, if◌then◌else◌, ◌≡◌, ◌≢◌, ◌⊎◌, Option-cases, ◌∙◌,
  refl, sym, ap, arith, Bool-cases, inl, inr,
}
use fluxgate_operator.Connector.RepoUrl.{owner_and_repo, parse_ssh_url, parse_repo_url}

-- The text has no character with the code.
abbrev pub Lacks : ℕ → String → Type 0
Lacks n String.[] = Unit
Lacks n (String.◌∷◌ c s) = (eqb (code c) n ≡ false) × Lacks n s

cut-append :
    (n : ℕ) (s t : String) (c : Char)
    → Lacks n s
    → eqb (code c) n ≡ true
    → cut n (s <> String.◌∷◌ c t) ≡ some (s, t)
unfolding cut
cut-append n String.[] t c h e = rw (nil-append, e)
cut-append n (String.◌∷◌ d s) t c (q, h) e = rw (cons-append, q, cut-append n s t c h e)

cut-Lacks : (n : ℕ) (s : String) → Lacks n s → cut n s ≡ none
unfolding cut
cut-Lacks n String.[] h = refl
cut-Lacks n (String.◌∷◌ c s) (q, h) = rw (q, cut-Lacks n s h)

longer_ne : (c : Char) (s p : String) → String.◌∷◌ c (s <> p) ≢ p
longer_ne c s p h = omega (arith, ap count h, length-append s p, length-cons c (s <> p))

trim_suffix_self : (p : String) → trim_suffix p p ≡ ""
unfolding trim_suffix
trim_suffix_self String.[] = refl
trim_suffix_self (String.◌∷◌ c p) = rw (eq_refl (String.◌∷◌ c p))

trim_suffix-append : (s p : String) → trim_suffix (s <> p) p ≡ s
unfolding trim_suffix
trim_suffix-append String.[] p = ap (λ x. trim_suffix x p) (nil-append p) ∙ trim_suffix_self p
trim_suffix-append (String.◌∷◌ c s) p =
    rw (cons-append, eqb_of_ne (String.◌∷◌ c (s <> p)) p (longer_ne c s p), trim_suffix-append s p)

slash : (s : String) → "/" <> s ≡ String.◌∷◌ (char 47 tt) s
slash s = cons-append (char 47 tt) "" s ∙ ap (String.◌∷◌ (char 47 tt)) (nil-append s)

colon : (s : String) → ":" <> s ≡ String.◌∷◌ (char 58 tt) s
colon s = cons-append (char 58 tt) "" s ∙ ap (String.◌∷◌ (char 58 tt)) (nil-append s)

-- The four characters of the user's name.
abbrev at_git : String → String
at_git s =
    String.◌∷◌ (char 103 tt)
      (String.◌∷◌ (char 105 tt) (String.◌∷◌ (char 116 tt) (String.◌∷◌ (char 64 tt) s)))

git_at : (s : String) → "git@" <> s ≡ at_git s
git_at s =
    cons-append (char 103 tt) "it@" s
    ∙ ap (String.◌∷◌ (char 103 tt)) (
        cons-append (char 105 tt) "t@" s
        ∙ ap (String.◌∷◌ (char 105 tt)) (
            cons-append (char 116 tt) "@" s
            ∙ ap (String.◌∷◌ (char 116 tt))
                (cons-append (char 64 tt) "" s ∙ ap (String.◌∷◌ (char 64 tt)) (nil-append s))))

has_prefix-at_git :
    (s : String) → (has_prefix (at_git s) "git@" ≡ true) × (has_prefix (at_git s) "ssh://" ≡ false)
unfolding has_prefix
has_prefix-at_git s = (refl, refl)

cut-at_git : (s a b : String) → cut b':' s ≡ some (a, b) → cut b':' (at_git s) ≡ some (at_git a, b)
unfolding cut
cut-at_git s a b h = rw h

parse_ssh_url-at_git :
    (s a b : String) → cut b':' s ≡ some (a, b) → parse_ssh_url (at_git s) ≡ owner_and_repo b
unfolding parse_ssh_url
parse_ssh_url-at_git s a b h = rw ((has_prefix-at_git s).1, parse_ssh_url, cut-at_git s a b h)

parse_repo_url-at_git :
    (url_path : String → Option String) (host path : String)
    → Lacks b':' host
    → parse_repo_url url_path (at_git (host <> String.◌∷◌ (char 58 tt) path)) ≡ owner_and_repo path
unfolding parse_repo_url
parse_repo_url-at_git url_path host path h =
    let s = host <> String.◌∷◌ (char 58 tt) path in
    rw ((has_prefix-at_git s).0, parse_repo_url)
      (parse_ssh_url-at_git s host path (cut-append b':' host path (char 58 tt) h refl))

-- The path of a URL that ends in `.git`.
dotted :
    (owner repo : String) → owner <> ("/" <> (repo <> ".git")) ≡ (owner <> ("/" <> repo)) <> ".git"
dotted owner repo =
    ap (λ x. owner <> x) (sym (append_assoc "/" repo ".git"))
    ∙ sym (append_assoc owner ("/" <> repo) ".git")

owner_and_repo-trimmed :
    (path owner repo : String)
    → trim_suffix path ".git" ≡ owner <> ("/" <> repo)
    → Lacks b'/' owner
    → Lacks b'/' repo
    → owner_and_repo path ≡ some (owner, repo)
unfolding split_n owner_and_repo
owner_and_repo-trimmed path owner repo e h k =
    let first : cut b'/' (owner <> ("/" <> repo)) ≡ some (owner, repo) =
      ap (λ x. cut b'/' (owner <> x)) (slash repo)
      ∙ cut-append b'/' owner repo (char 47 tt) h refl in
    rw (e, owner_and_repo, first, cut-Lacks b'/' repo k)

-- Where the host has no colon, and the owner and the name no slash, a URL of the form
-- `git@host:owner/name.git` gives back the owner and the name.
pub parse_repo_url-scp :
    (url_path : String → Option String) (host owner repo : String)
    → Lacks b':' host
    → Lacks b'/' owner
    → Lacks b'/' repo
    → parse_repo_url url_path ("git@" <> (host <> (":" <> (owner <> ("/" <> (repo <> ".git"))))))
      ≡ some (owner, repo)
parse_repo_url-scp url_path host owner repo h o r =
    let path = owner <> ("/" <> (repo <> ".git")) in
    ap (λ x. parse_repo_url url_path ("git@" <> (host <> x))) (colon path)
    ∙ ap (parse_repo_url url_path) (git_at (host <> String.◌∷◌ (char 58 tt) path))
    ∙ parse_repo_url-at_git url_path host path h
    ∙ owner_and_repo-trimmed path owner repo
        (ap (λ x. trim_suffix x ".git") (dotted owner repo)
          ∙ trim_suffix-append (owner <> ("/" <> repo)) ".git")
        o r

-- What a cut leaves: a text without the character, or one part before it and the rest.
cut-parts :
    (n : ℕ) (s : String)
    → ((cut n s ≡ none) × Lacks n s) ⊎ ((a b : String) × (cut n s ≡ some (a, b)) × Lacks n a)
unfolding cut
cut-parts n String.[] = inl (refl, tt)
cut-parts n (String.◌∷◌ c s) = elim (Bool-cases (eqb (code c) n)) [
  | inl here ↦ inr ("", s, rw here, tt)
  | inr off ↦ elim (cut-parts n s) [
    | inl (e, h) ↦ inl (rw (off, e), (off, h))
    | inr (a, b, e, h) ↦ inr (String.◌∷◌ c a, b, rw (off, e), (off, h))
  ]
]

-- The two parts of a path that has them.
owner_and_repo-cases :
    (path : String)
    → (owner_and_repo path ≡ none)
      ⊎ ((owner repo : String) × (owner_and_repo path ≡ some (owner, repo))
          × Lacks b'/' owner
          × Lacks b'/' repo)
unfolding owner_and_repo split_n
owner_and_repo-cases path = elim (cut-parts b'/' (trim_suffix path ".git")) [
  | inl (e, h) ↦ inl (rw (owner_and_repo, e))
  | inr (a, b, e, h) ↦ elim (cut-parts b'/' b) [
    | inl (e', k) ↦ inr (a, b, rw (owner_and_repo, e, e'), h, k)
    | inr (c, d, e', k) ↦ inr (a, c, rw (owner_and_repo, e, e'), h, k)
  ]
]

parse_ssh_url-cases :
    (url : String)
    → (parse_ssh_url url ≡ none) ⊎ ((path : String) × (parse_ssh_url url ≡ owner_and_repo path))
unfolding parse_ssh_url
parse_ssh_url-cases url =
    let s = if has_prefix url "ssh://" then trim_prefix url "ssh://" else url in
    elim (cut-parts b':' s) [
      | inl (e, h) ↦ inl (rw (e, parse_ssh_url))
      | inr (a, b, e, h) ↦ inr (b, rw (e, parse_ssh_url))
    ]

parse_repo_url-cases :
    (url_path : String → Option String) (url : String)
    → (parse_repo_url url_path url ≡ none)
      ⊎ ((path : String) × (parse_repo_url url_path url ≡ owner_and_repo path))
unfolding parse_repo_url
parse_repo_url-cases url_path url =
    elim (Bool-cases (has_prefix url "git@" || has_prefix url "ssh://")) [
      | inl ssh ↦ rw (ssh, parse_repo_url) (parse_ssh_url-cases url)
      | inr other ↦ elim (Option-cases (url_path url)) [
        | inl e ↦ inl (rw (other, parse_repo_url, e))
        | inr (path, e) ↦ inr (trim_prefix path "/", rw (other, parse_repo_url, e))
      ]
    ]

-- Whatever the URL: it is refused, or its owner and its name have no slash, so that they are single
-- segments of the GitHub paths that are made of them.
pub parse_repo_url-Lacks :
    (url_path : String → Option String) (url : String)
    → (parse_repo_url url_path url ≡ none)
      ⊎ ((owner repo : String) × (parse_repo_url url_path url ≡ some (owner, repo))
          × Lacks b'/' owner
          × Lacks b'/' repo)
parse_repo_url-Lacks url_path url = elim (parse_repo_url-cases url_path url) [
  | inl e ↦ inl e
  | inr (path, same) ↦ rw same (owner_and_repo-cases path)
]
