-- ===== src/Analyzer/GitHub/Laws.antt =====
-- What the fetches of workflow files leave alone, and which files they return.
use fluxgate_operator.Prelude.{
  true, ◌||◌, List, [], ◌∷◌, All, All-append, Result, Result-cases, value_or, ok, err, String,
  has_suffix, if◌then◌else◌, ◌≡◌, refl, ◌∙◌, inl, inr, arith, Bool-cases,
}
use fluxgate_operator.Platform.{Platform, GithubContentEntry, HttpResponse}
use fluxgate_operator.Platform.World.{World}
use fluxgate_operator.Analyzer.GitHub.{
  GitHubClient, WorkflowFile, is_workflow, record_rate_limit, do_request, send_request, request_for,
  fetch_contents, fetch_file_content, file_url, list_url, add_file, fetch_files,
  fetch_workflow_files,
}

-- All but the metrics and what lies outside the process is as it was.
abbrev pub IsUntouched : (P : Platform) → World P → World P → Type 0
IsUntouched P w' w = (w'.registry ≡ w.registry) × (w'.cache ≡ w.cache) × (w'.events ≡ w.events)

IsUntouched-trans :
    (P : Platform) (a b c : World P) → IsUntouched P b a → IsUntouched P c b → IsUntouched P c a
IsUntouched-trans P a b c (r, k, e) (r', k', e') = (r' ∙ r, k' ∙ k, e' ∙ e)

module _ (P : Platform) where
  record_rate_limit-IsUntouched :
      (resp : HttpResponse P.Bytes) (w : World P) → IsUntouched P (record_rate_limit P resp w) w
  unfolding record_rate_limit
  record_rate_limit-IsUntouched resp w = ground arith

  module _ (g : GitHubClient) where
    send_request-IsUntouched :
        (endpoint url : String) (w : World P) → IsUntouched P (send_request P g endpoint url w).1 w
    unfolding send_request
    send_request-IsUntouched endpoint url w =
        elim (Result-cases (P.http_get w.api (request_for g url)).0) [
          | inl (e, h) ↦ rw (h, send_request) (refl, refl, refl)
          | inr (resp, h) ↦ rw (h, send_request) (record_rate_limit-IsUntouched resp _)
        ]

    do_request-IsUntouched :
        (endpoint url : String) (w : World P) → IsUntouched P (do_request P g endpoint url w).1 w
    unfolding do_request
    do_request-IsUntouched endpoint url w = elim (Result-cases (P.check_url url)) [
      | inl (e, h) ↦ rw (h, do_request) (refl, refl, refl)
      | inr (valid, h) ↦ rw (h, do_request) (send_request-IsUntouched endpoint url w)
    ]

    fetch_contents-IsUntouched :
        (url : String) (w : World P) → IsUntouched P (fetch_contents P g url w).1 w
    unfolding fetch_contents
    fetch_contents-IsUntouched url w = do_request-IsUntouched "contents" url w

    fetch_file_content-IsUntouched :
        (url : String) (w : World P) → IsUntouched P (fetch_file_content P g url w).1 w
    unfolding fetch_file_content
    fetch_file_content-IsUntouched url w = do_request-IsUntouched "contents/file" url w

    module _ (owner repo branch : String) where
      -- One round of the loop over the entries.
      abbrev pub round :
          GithubContentEntry
          → List (WorkflowFile P.Bytes)
          → World P
          → List (WorkflowFile P.Bytes) × World P
      round entry files w =
          if is_workflow entry
          then (let (answer, v) =
                fetch_file_content P g (file_url g owner repo entry.path branch) w in
              (add_file P g owner repo branch entry.name files answer, v))
          else (files, w)

      round-IsUntouched :
          (entry : GithubContentEntry) (files : List (WorkflowFile P.Bytes)) (w : World P)
          → IsUntouched P (round entry files w).1 w
      round-IsUntouched entry files w = elim (Bool-cases (is_workflow entry)) [
        | inl on ↦
            rw on (fetch_file_content-IsUntouched (file_url g owner repo entry.path branch) w)
        | inr off ↦ rw off (refl, refl, refl)
      ]

      fetch_files-IsUntouched :
          (entries : List GithubContentEntry) (files : List (WorkflowFile P.Bytes)) (w : World P)
          → IsUntouched P (fetch_files P g owner repo branch entries files w).1 w
      unfolding fetch_files
      fetch_files-IsUntouched [] files w = (refl, refl, refl)
      fetch_files-IsUntouched (entry ∷ entries) files w =
          let (files', w') = round entry files w in
          IsUntouched-trans P w w' (fetch_files P g owner repo branch entries files' w').1
            (round-IsUntouched entry files w) (fetch_files-IsUntouched entries files' w')

      pub fetch_workflow_files-IsUntouched :
          (w : World P) → IsUntouched P (fetch_workflow_files P g owner repo branch w).1 w
      unfolding fetch_workflow_files
      fetch_workflow_files-IsUntouched w =
          let url = list_url g owner repo branch in
          let w' = (fetch_contents P g url w).1 in
          elim (Result-cases (fetch_contents P g url w).0) [
            | inl (e, h) ↦ rw (h, fetch_workflow_files) (fetch_contents-IsUntouched url w)
            | inr (entries, h) ↦
                rw (h, fetch_workflow_files)
                  (IsUntouched-trans P w w' (fetch_files P g owner repo branch entries [] w').1
                    (fetch_contents-IsUntouched url w) (fetch_files-IsUntouched entries [] w'))
          ]

      -- The name of a file of the Contents API that is taken for a workflow.
      abbrev pub IsWorkflowName : WorkflowFile P.Bytes → Type 0
      IsWorkflowName f = (has_suffix f.name ".yml" || has_suffix f.name ".yaml") ≡ true

      add_file-names :
          (name : String) (files : List (WorkflowFile P.Bytes)) (answer : Result P.Bytes)
          → (has_suffix name ".yml" || has_suffix name ".yaml") ≡ true
          → All IsWorkflowName files
          → All IsWorkflowName (add_file P g owner repo branch name files answer)
      add_file-names name files (err e) named h = h
      add_file-names name files (ok content) named h =
          All-append IsWorkflowName files (record { name = name; content = content } ∷ []) h
            (named, tt)

      is_workflow-name :
          (entry : GithubContentEntry)
          → is_workflow entry ≡ true
          → (has_suffix entry.name ".yml" || has_suffix entry.name ".yaml") ≡ true
      unfolding is_workflow
      is_workflow-name entry on = ground arith

      round-names :
          (entry : GithubContentEntry) (files : List (WorkflowFile P.Bytes)) (w : World P)
          → All IsWorkflowName files
          → All IsWorkflowName (round entry files w).0
      round-names entry files w h = elim (Bool-cases (is_workflow entry)) [
        | inl on ↦ rw on (
            add_file-names entry.name files
              (fetch_file_content P g (file_url g owner repo entry.path branch) w).0
              (is_workflow-name entry on) h)
        | inr off ↦ rw off h
      ]

      fetch_files-names :
          (entries : List GithubContentEntry) (files : List (WorkflowFile P.Bytes)) (w : World P)
          → All IsWorkflowName files
          → All IsWorkflowName (fetch_files P g owner repo branch entries files w).0
      unfolding fetch_files
      fetch_files-names [] files w h = h
      fetch_files-names (entry ∷ entries) files w h =
          let (files', w') = round entry files w in
          fetch_files-names entries files' w' (round-names entry files w h)

      -- Whatever GitHub answers: the fetch returns only files whose names end in ".yml" or ".yaml", and
      -- leaves the registry, the cache and the events as they were.
      pub fetch_workflow_files-names :
          (w : World P)
          → All IsWorkflowName (value_or [] (fetch_workflow_files P g owner repo branch w).0)
            × IsUntouched P (fetch_workflow_files P g owner repo branch w).1 w
      unfolding fetch_workflow_files
      fetch_workflow_files-names w =
          let url = list_url g owner repo branch in
          let w' = (fetch_contents P g url w).1 in
          (
            elim (Result-cases (fetch_contents P g url w).0) [
              | inl (e, h) ↦ rw (h, fetch_workflow_files) tt
              | inr (entries, h) ↦ rw (h, fetch_workflow_files) (fetch_files-names entries [] w' tt)
            ],
            fetch_workflow_files-IsUntouched w,
          )
