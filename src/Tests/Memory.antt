-- ===== src/Tests/Memory.antt =====
-- A platform in memory, to run the program on: reports, policies and workloads in lists, a log of what
-- was patched, a clock that stands, and answers of the network that are given in advance.
use fluxgate_operator.Prelude.{
  ℕ, ◌*◌, Bool, true, false, ◌&&◌, List, [], ◌∷◌, push, Dict, lookup, none, some, Result, value_or,
  ok, err, not_found, failure, String, ◌==◌, texts, eq_refl, ◌<>◌, ℤ, pos, if◌then◌else◌, ◌≡◌, sym,
  ap, ◌∙◌, Bool-cases, inl, inr, subst,
}
use fluxgate_operator.Api.{ObjectMeta, PipelineSecurityPolicy, PipelineSecurityReport}
use fluxgate_operator.Json.{Json}
use fluxgate_operator.Connector.Types.{ArgoCdApplication, FluxGitRepository, FluxKustomization}
use fluxgate_operator.Platform.{
  Platform, NamespacedName, HttpRequest, HttpResponse, GithubContentEntry,
}
use fluxgate_operator.Controller.Report.Laws.{KeepsStatus}

pub record Cluster : Type 0 where
  pub reports : List PipelineSecurityReport
  pub policies : List PipelineSecurityPolicy
  pub workloads : List ObjectMeta
  pub clock : ℤ
  pub patched : List (NamespacedName × Json)
  pub post_status : ℕ
  pub pages : Dict String

abbrev pub is_named : NamespacedName → ObjectMeta → Bool
is_named nn m = m.name == nn.name && m.namespace == nn.namespace

abbrev pub key_of : ObjectMeta → NamespacedName
key_of m = record { name = m.name; namespace = m.namespace }

unfoldable pub find_report :
    NamespacedName → List PipelineSecurityReport → Result PipelineSecurityReport
find_report nn [] = err (not_found nn.name)
find_report nn (r ∷ rs) = let rest = find_report nn rs in if is_named nn r.meta then ok r else rest

unfoldable pub replace_report :
    PipelineSecurityReport → List PipelineSecurityReport → List PipelineSecurityReport
replace_report new [] = []
replace_report new (r ∷ rs) =
    let rest = replace_report new rs in
    if is_named (key_of new.meta) r.meta then new ∷ rs else r ∷ rest

unfoldable pub find_policy :
    NamespacedName → List PipelineSecurityPolicy → Result PipelineSecurityPolicy
find_policy nn [] = err (not_found nn.name)
find_policy nn (p ∷ ps) = let rest = find_policy nn ps in if is_named nn p.meta then ok p else rest

unfoldable pub find_workload : NamespacedName → List ObjectMeta → Result (Unit {0})
find_workload nn [] = err (not_found nn.name)
find_workload nn (m ∷ ms) = let rest = find_workload nn ms in if is_named nn m then ok tt else rest

abbrev log_patch : NamespacedName → Json → Cluster → Result (Unit {0}) × Cluster
log_patch nn patch s = (ok tt, record s { patched = push s.patched (nn, patch) })

unfoldable pub page_of : Cluster → HttpRequest → Result (HttpResponse String)
page_of s request = elim (lookup request.url s.pages) [
  | none ↦ err (failure "no route to host")
  | some body ↦ ok (record { status_code = 200; rate_remaining = ""; body = body })
]

-- A file entry whose content is its own path.
abbrev entry : String → GithubContentEntry
entry name = record {
  name = name;
  path = ".github/workflows/" <> name;
  type = "file";
  download_url = "";
  content = name;
  encoding = "";
}

unfoldable pub update_in : Cluster → PipelineSecurityReport → Result (Unit {0}) × Cluster
update_in s r = (ok tt, record s { reports = replace_report r s.reports })

-- What the objects of the cluster decode to.
abbrev application : ArgoCdApplication
application = record {
  meta = record { name = "shop"; namespace = "ci"; labels = []; annotations = [] };
  spec = record {
    source = record {
      repo_url = "git@github.com:acme/shop.git";
      path = "deploy";
      target_revision = "HEAD";
    };
    destination = record { server = ""; namespace = "prod" };
    sync_policy = none;
  };
}

abbrev pub repository : FluxGitRepository
repository = record {
  meta = record { name = "repo"; namespace = "ci"; labels = []; annotations = [] };
  spec = record { url = "git@github.com:acme/shop.git"; reference = none };
}

abbrev pub kustomization : FluxKustomization
kustomization = record {
  meta = record { name = "ks"; namespace = "ci"; labels = []; annotations = [] };
  spec = record {
    source_ref = record { kind = "GitRepository"; name = "repo"; namespace = "" };
    path = "./deploy";
    suspend = false;
    target_namespace = "prod";
  };
}

abbrev hour : ℕ
hour = 3600000000000

abbrev pub memory : Platform
memory = record {
  State = Cluster;
  Object = String;
  Bytes = String;
  unicode = record { lower_rune = λ c. c; same_fold = λ c d. false };
  now = λ s. s.clock;
  get_policy = λ s nn. find_policy nn s.policies;
  get_report = λ s nn. find_report nn s.reports;
  list_reports = λ s ns. ok s.reports;
  get_workload = λ s kind nn. find_workload nn s.workloads;
  list_workloads = λ s kind ns. ok s.workloads;
  list_objects = λ s gvk ns.
      if gvk.kind == "PipelineList" then err (failure "no such kind") else ok ("object" ∷ []);
  create_report = λ s r. (ok tt, record s { reports = push s.reports r });
  update_report = update_in;
  update_report_status = update_in;
  update_policy_status = λ s p. (ok tt, s);
  patch_object = λ s gvk nn patch. log_patch nn patch s;
  patch_workload = λ s kind nn patch. log_patch nn patch s;
  http_post = λ s url body. (ok s.post_status, s);
  check_url = λ url. ok tt;
  http_get = λ s request. (page_of s request, s);
  marshal_object = λ o. ok o;
  decode_application = λ b. ok application;
  decode_git_repository = λ b. ok repository;
  decode_kustomization = λ b. ok kustomization;
  decode_pipeline = λ b. err (failure "not a pipeline");
  decode_pipeline_run = λ b. err (failure "not a run");
  decode_entries = λ b. ok (entry "ci.yml" ∷ entry "notes.md" ∷ []);
  decode_entry = λ b. ok (entry b);
  decode_base64 = λ s. ok s;
  bytes_of = λ s. s;
  string_of = λ b. b;
  parse_float = λ s. none;
  parse_duration =
      λ s. if s == "24h" then ok (pos (24 * hour)) else err (failure "invalid duration");
  parse_rfc3339 =
      λ s. if s == "2026-01-01T00:00:00Z" then ok (pos 0) else err (failure "cannot parse");
  format_rfc3339 = λ t. "2026-01-01T00:00:00Z";
  url_path = λ s. none;
  scan_workflow_bytes = λ content path. ok (
      record {
        rule_id = "unpinned-action";
        severity = "high";
        file = path;
        line = pos 7;
        message = content;
        mitigations = [];
      }
      ∷ []);
}

pub find_report-named :
    (nn : NamespacedName) (rs : List PipelineSecurityReport) (r : PipelineSecurityReport)
    → find_report nn rs ≡ ok r
    → is_named nn r.meta ≡ true
unfolding find_report
find_report-named nn [] r h = cc
find_report-named nn (x ∷ rs) r h = elim (Bool-cases (is_named nn x.meta)) [
  | inl named ↦
      subst (λ y. is_named nn y.meta ≡ true) (ap (value_or x) (rw (named, find_report) at h)) named
  | inr other ↦ find_report-named nn rs r (rw (other, find_report) at h)
]

is_named_self : (m : ObjectMeta) → is_named (key_of m) m ≡ true
is_named_self m = rw (eq_refl m.name, eq_refl m.namespace)

replaced-first :
    (nn : NamespacedName) (x new : PipelineSecurityReport) (rs : List PipelineSecurityReport)
    → is_named nn x.meta ≡ true
    → new.meta ≡ x.meta
    → find_report nn (replace_report new (x ∷ rs)) ≡ ok new
unfolding find_report replace_report
replaced-first nn x new rs named meta =
    let own : is_named (key_of new.meta) x.meta ≡ true =
      subst (λ m. is_named (key_of new.meta) m ≡ true) meta (is_named_self new.meta) in
    let its : is_named nn new.meta ≡ true = subst (λ m. is_named nn m ≡ true) (sym meta) named in
    rw (own, its)

others-differ :
    (nn : NamespacedName) (x r : ObjectMeta)
    → is_named nn x ≡ false
    → is_named nn r ≡ true
    → is_named (key_of r) x ≡ false
others-differ nn x r other named = grind texts

replaced-later :
    (nn : NamespacedName) (x r new : PipelineSecurityReport) (rs : List PipelineSecurityReport)
    → is_named nn x.meta ≡ false
    → is_named nn r.meta ≡ true
    → new.meta ≡ r.meta
    → find_report nn (replace_report new rs) ≡ ok new
    → find_report nn (replace_report new (x ∷ rs)) ≡ ok new
unfolding find_report replace_report
replaced-later nn x r new rs other named same rest =
    let differ : is_named (key_of new.meta) x.meta ≡ false =
      subst (λ m. is_named (key_of m) x.meta ≡ false) (sym same)
        (others-differ nn x.meta r.meta other named) in
    rw (differ, other) rest

find_report-replace_report :
    (nn : NamespacedName) (rs : List PipelineSecurityReport) (r new : PipelineSecurityReport)
    → find_report nn rs ≡ ok r
    → new.meta ≡ r.meta
    → find_report nn (replace_report new rs) ≡ ok new
unfolding find_report replace_report
find_report-replace_report nn [] r new h same = cc
find_report-replace_report nn (x ∷ rs) r new h same = elim (Bool-cases (is_named nn x.meta)) [
  | inl named ↦
      let first : x ≡ r = ap (value_or x) (rw (named, find_report) at h) in
      let meta : new.meta ≡ x.meta = same ∙ ap (λ y. y.meta) (sym first) in
      replaced-first nn x new rs named meta
  | inr other ↦
      let rest = rw (other, find_report) at h in
      replaced-later nn x r new rs other (find_report-named nn rs r rest) same
        (find_report-replace_report nn rs r new rest same)
]

-- The platform keeps the promise.
pub memory-KeepsStatus : KeepsStatus memory
unfolding update_in
memory-KeepsStatus s nn r r' found same stored =
    (r'.status.last_evaluated, find_report-replace_report nn s.reports r r' found same)
