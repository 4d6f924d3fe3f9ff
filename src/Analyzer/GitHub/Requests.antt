-- ===== src/Analyzer/GitHub/Requests.antt =====
-- How many requests a fetch sends.
use fluxgate_operator.Prelude.{
  ℕ, ◌+◌, ◌≤◌, List, [], ◌∷◌, push, Option-cases, Result-cases, value_or, String, ◌==◌,
  if◌then◌else◌, ◌≡◌, ◌∙◌, arith, Bool-cases, inl, inr,
}
use fluxgate_operator.Platform.{Platform, GithubContentEntry, HttpResponse}
use fluxgate_operator.Platform.World.{World, MetricUpdate, github_api_requests}
use fluxgate_operator.Analyzer.GitHub.{
  GitHubClient, WorkflowFile, is_workflow, record_rate_limit, do_request, send_request, request_for,
  fetch_contents, fetch_file_content, file_url, list_url, fetch_files, fetch_workflow_files,
}
use fluxgate_operator.Analyzer.GitHub.Laws.{round}

abbrev is_request : MetricUpdate → ℕ
is_request (github_api_requests endpoint status) = 1
is_request m = 0

-- The updates of the counter of GitHub requests; each request that is sent makes one, answered or not.
abbrev pub requests : List MetricUpdate → ℕ
requests [] = 0
requests (m ∷ ms) = is_request m + requests ms

requests-push :
    (ms : List MetricUpdate) (m : MetricUpdate) → requests (push ms m) ≡ requests ms + is_request m
requests-push [] m = omega arith
requests-push (n ∷ ms) m = omega (arith, requests-push ms m)

-- The workflow files of a listing.
abbrev pub workflows : List GithubContentEntry → ℕ
workflows [] = 0
workflows (entry ∷ entries) = (if is_workflow entry then 1 else 0) + workflows entries

module _ (P : Platform) where
  record_rate_limit-requests :
      (resp : HttpResponse P.Bytes) (w : World P)
      → requests (record_rate_limit P resp w).metrics ≡ requests w.metrics
  unfolding record_rate_limit
  record_rate_limit-requests resp w = elim (Bool-cases (resp.rate_remaining == "")) [
    | inl absent ↦ rw (absent, record_rate_limit)
    | inr present ↦ elim (Option-cases (P.parse_float resp.rate_remaining)) [
      | inl e ↦ rw (present, record_rate_limit, e)
      | inr (val, e) ↦ rw (present, record_rate_limit, e) (requests-push w.metrics _ ∙ omega arith)
    ]
  ]

  module _ (g : GitHubClient) where
    send_request-requests :
        (endpoint url : String) (w : World P)
        → requests (send_request P g endpoint url w).1.metrics ≡ requests w.metrics + 1
    unfolding send_request
    send_request-requests endpoint url w =
        elim (Result-cases (P.http_get w.api (request_for g url)).0) [
          | inl (e, h) ↦ rw (h, send_request) (requests-push w.metrics _)
          | inr (resp, h) ↦
              rw (h, send_request) (record_rate_limit-requests resp _ ∙ requests-push w.metrics _)
        ]

    do_request-requests :
        (endpoint url : String) (w : World P)
        → requests (do_request P g endpoint url w).1.metrics ≤ requests w.metrics + 1
    unfolding do_request
    do_request-requests endpoint url w = elim (Result-cases (P.check_url url)) [
      | inl (e, h) ↦ rw (h, do_request) (omega arith)
      | inr (valid, h) ↦ rw (h, do_request) (omega (arith, send_request-requests endpoint url w))
    ]

    fetch_contents-requests :
        (url : String) (w : World P)
        → requests (fetch_contents P g url w).1.metrics ≤ requests w.metrics + 1
    unfolding fetch_contents
    fetch_contents-requests url w = do_request-requests "contents" url w

    fetch_file_content-requests :
        (url : String) (w : World P)
        → requests (fetch_file_content P g url w).1.metrics ≤ requests w.metrics + 1
    unfolding fetch_file_content
    fetch_file_content-requests url w = do_request-requests "contents/file" url w

    module _ (owner repo branch : String) where
      round-requests :
          (entry : GithubContentEntry) (files : List (WorkflowFile P.Bytes)) (w : World P)
          → requests (round P g owner repo branch entry files w).1.metrics
            ≤ requests w.metrics + (if is_workflow entry then 1 else 0)
      round-requests entry files w = elim (Bool-cases (is_workflow entry)) [
        | inl on ↦ rw on (fetch_file_content-requests (file_url g owner repo entry.path branch) w)
        | inr off ↦ rw off (omega arith)
      ]

      fetch_files-requests :
          (entries : List GithubContentEntry) (files : List (WorkflowFile P.Bytes)) (w : World P)
          → requests (fetch_files P g owner repo branch entries files w).1.metrics
            ≤ requests w.metrics + workflows entries
      unfolding fetch_files
      fetch_files-requests [] files w = omega arith
      fetch_files-requests (entry ∷ entries) files w =
          let (files', w') = round P g owner repo branch entry files w in
          omega (arith, fetch_files-requests entries files' w', round-requests entry files w)

      -- A fetch counts at most one request for the listing of the directory and one for each workflow file
      -- in it, whichever of them fail; where the listing fails, at most that one.
      pub fetch_workflow_files-requests :
          (w : World P)
          → requests (fetch_workflow_files P g owner repo branch w).1.metrics
            ≤ requests w.metrics
              + 1
              + workflows (value_or [] (fetch_contents P g (list_url g owner repo branch) w).0)
      unfolding fetch_workflow_files
      fetch_workflow_files-requests w =
          let url = list_url g owner repo branch in
          let w' = (fetch_contents P g url w).1 in
          elim (Result-cases (fetch_contents P g url w).0) [
            | inl (e, h) ↦
                rw (h, fetch_workflow_files) (omega (arith, fetch_contents-requests url w))
            | inr (entries, h) ↦
                rw (h, fetch_workflow_files)
                  (omega (arith, fetch_files-requests entries [] w', fetch_contents-requests url w))
          ]
