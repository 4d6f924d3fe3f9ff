-- ===== src/Analyzer/GitHub.antt =====
-- internal/analyzer/github.go: the workflow files of a repository, by the Contents API.
pub mod Laws
pub mod Requests
use fluxgate_operator.Prelude.{
  ℕ, Bool, true, false, not, ◌&&◌, ◌||◌, List, [], ◌∷◌, Dict, insert, Option, none, some, Result,
  ok, err, failure, wrap, ◌>>=◌, String, ◌==◌, ◌<>◌, concat, itoa, pos, eqb, has_suffix, push,
  without_newlines, if◌then◌else◌,
}
use fluxgate_operator.Platform.{Platform, GithubContentEntry, HttpRequest, HttpResponse}
use fluxgate_operator.Platform.World.{
  World, Op, measure, write, github_api_requests, github_api_rate_remaining,
}

-- `WorkflowFile`
pub record WorkflowFile (Bytes : Type 0) : Type 0 where
  pub name : String
  pub content : Bytes

-- `GitHubClient`; its `HTTPClient` is the platform's.
pub record GitHubClient : Type 0 where
  pub token : String
  pub base_url : String

-- `setHeaders`
unfoldable pub set_headers : GitHubClient → Dict String → Dict String
set_headers g headers =
    let common =
      insert "User-Agent" "fluxgate-operator/1.0"
        (insert "Accept" "application/vnd.github.v3+json" headers) in
    if g.token == "" then common else insert "Authorization" ("Bearer " <> g.token) common

-- The request that both fetches send.
unfoldable pub request_for : GitHubClient → String → HttpRequest
request_for g url = record { url = url; headers = set_headers g [] }

abbrev pub github_base : GitHubClient → String
github_base g = if g.base_url == "" then "https://api.github.com" else g.base_url

abbrev pub list_url : GitHubClient → String → String → String → String
list_url g owner repo branch = concat (
    github_base g
    ∷ "/repos/"
    ∷ owner
    ∷ "/"
    ∷ repo
    ∷ "/contents/.github/workflows?ref="
    ∷ branch
    ∷ [])

abbrev pub file_url : GitHubClient → String → String → String → String → String
file_url g owner repo path branch =
    concat
      (github_base g ∷ "/repos/" ∷ owner ∷ "/" ∷ repo ∷ "/contents/" ∷ path ∷ "?ref=" ∷ branch ∷ [])

-- Which entries of the directory are fetched.
unfoldable pub is_workflow : GithubContentEntry → Bool
is_workflow entry =
    entry.type == "file" && (has_suffix entry.name ".yml" || has_suffix entry.name ".yaml")

module _ (P : Platform) where
  -- `recordRateLimit`
  unfoldable pub record_rate_limit : HttpResponse P.Bytes → World P → World P
  record_rate_limit resp w =
      if resp.rate_remaining == "" then w else elim (P.parse_float resp.rate_remaining) [
        | none ↦ w
        | some val ↦ measure P (github_api_rate_remaining val) w
      ]

  -- `httpClient.Do(req)` with the metrics of the two fetches.
  unfoldable pub send_request : GitHubClient → String → String → Op P (HttpResponse P.Bytes)
  send_request g endpoint url w =
      let (answer, w') = write P (λ s. P.http_get s (request_for g url)) w in
      elim answer [
        | err e ↦ (err e, measure P (github_api_requests endpoint "error") w')
        | ok resp ↦ (
          ok resp,
          record_rate_limit resp
              (measure P (github_api_requests endpoint (itoa (pos resp.status_code))) w'),
        )
      ]

  -- `http.NewRequestWithContext`, whose error comes before any request, and then the request.
  unfoldable pub do_request : GitHubClient → String → String → Op P (HttpResponse P.Bytes)
  do_request g endpoint url w = elim (P.check_url url) [
    | err e ↦ (err e, w)
    | ok valid ↦ send_request g endpoint url w
  ]

  unfoldable pub read_listing : HttpResponse P.Bytes → Result (List GithubContentEntry)
  read_listing resp =
      if eqb resp.status_code 404
      then ok []
      else if not (eqb resp.status_code 200)
      then err (
          failure (
            concat (
              "GitHub API returned "
              ∷ itoa (pos resp.status_code)
              ∷ ": "
              ∷ P.string_of resp.body
              ∷ [])))
      else elim (P.decode_entries resp.body) [
        | err e ↦ err (wrap "decoding contents response: " e)
        | ok entries ↦ ok entries
      ]

  -- `fetchContents`
  unfoldable pub fetch_contents : GitHubClient → String → Op P (List GithubContentEntry)
  fetch_contents g url w =
      let (answer, w') = do_request g "contents" url w in (answer >>= read_listing, w')

  unfoldable pub content_of : GithubContentEntry → Result P.Bytes
  content_of entry =
      if entry.encoding == "base64"
      then P.decode_base64 (without_newlines entry.content)
      else ok (P.bytes_of entry.content)

  unfoldable pub read_file : HttpResponse P.Bytes → Result P.Bytes
  read_file resp =
      if not (eqb resp.status_code 200)
      then err (failure ("GitHub API returned " <> itoa (pos resp.status_code)))
      else elim (P.decode_entry resp.body) [
        | err e ↦ err (wrap "decoding file response: " e)
        | ok entry ↦ content_of entry
      ]

  -- `fetchFileContent`
  unfoldable pub fetch_file_content : GitHubClient → String → Op P P.Bytes
  fetch_file_content g url w =
      let (answer, w') = do_request g "contents/file" url w in (answer >>= read_file, w')

  module _ (g : GitHubClient) (owner repo branch : String) where
    abbrev add_file :
        String → List (WorkflowFile P.Bytes) → Result P.Bytes → List (WorkflowFile P.Bytes)
    add_file name files (err e) = files
    add_file name files (ok content) = push files (record { name = name; content = content })

    -- The loop over the entries: a file that cannot be fetched is skipped.
    unfoldable pub fetch_files :
        List GithubContentEntry
        → List (WorkflowFile P.Bytes)
        → World P
        → List (WorkflowFile P.Bytes) × World P
    fetch_files [] files w = (files, w)
    fetch_files (entry ∷ entries) files w =
        let (files', w') =
          (if is_workflow entry
            then (let (answer, v) =
                  fetch_file_content g (file_url g owner repo entry.path branch) w in
                (add_file entry.name files answer, v))
            else (files, w)) in
        fetch_files entries files' w'

    -- `FetchWorkflowFiles`
    unfoldable pub fetch_workflow_files : Op P (List (WorkflowFile P.Bytes))
    fetch_workflow_files w =
        let (listing, w') = fetch_contents g (list_url g owner repo branch) w in
        elim listing [
          | err e ↦ (err (wrap "listing workflow directory: " e), w')
          | ok entries ↦ let (files, w'') = fetch_files entries [] w' in (ok files, w'')
        ]
