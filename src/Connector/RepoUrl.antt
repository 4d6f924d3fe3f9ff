-- ===== src/Connector/RepoUrl.antt =====
-- internal/connector/repourl.go: the owner and the name of a repository, from its URL.
pub mod Laws
use fluxgate_operator.Prelude.{
  ◌||◌, List, [], ◌∷◌, Option, none, some, String, cut, split_n, has_prefix, trim_prefix,
  trim_suffix, if◌then◌else◌,
}

-- The common end of both forms: `none` where fewer than two parts are left.
unfoldable pub owner_and_repo : String → Option (String × String)
owner_and_repo path = elim (split_n b'/' (trim_suffix path ".git") 3) [
  | [] ↦ none
  | owner ∷ [] ↦ none
  | owner ∷ repo ∷ rest ↦ some (owner, repo)
]

-- The branch for `git@…` and `ssh://…`: the path is what follows the first colon.
unfoldable pub parse_ssh_url : String → Option (String × String)
parse_ssh_url url =
    let s = if has_prefix url "ssh://" then trim_prefix url "ssh://" else url in
    elim (cut b':' s) [ none ↦ none | some (host, path) ↦ owner_and_repo path ]

-- `ParseRepoURL`, with `url_path` for `url.Parse(…)` and its `Path`.
unfoldable pub parse_repo_url : (String → Option String) → String → Option (String × String)
parse_repo_url url_path url =
    if has_prefix url "git@" || has_prefix url "ssh://"
    then parse_ssh_url url
    else elim (url_path url) [ none ↦ none | some path ↦ owner_and_repo (trim_prefix path "/") ]
