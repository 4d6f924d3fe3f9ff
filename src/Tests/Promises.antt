-- ===== src/Tests/Promises.antt =====
-- What the platform in memory promises: reports under their names, and writes that make none.
use fluxgate_operator.Prelude.{true, List, [], ◌∷◌, Error, ok, err, not_found, ◌≡◌, refl, texts}
use fluxgate_operator.Api.{ObjectMeta, PipelineSecurityReport}
use fluxgate_operator.Platform.{NamespacedName}
use fluxgate_operator.Controller.Analysis.Rounds.{NamesReports}
use fluxgate_operator.Controller.Policy.Frame.{Keeps}
use fluxgate_operator.Operator.Bootstrap.{HasNoReport}
use fluxgate_operator.Tests.Memory.{
  memory, find_report, find_report-named, replace_report, update_in, is_named, key_of,
}

pub memory-NamesReports : NamesReports memory
memory-NamesReports s nn r h = let named = find_report-named nn s.reports r h in grind texts

is_named_own : (m : ObjectMeta) → is_named (key_of m) m ≡ true
is_named_own m = grind texts

find_report_own :
    (r : PipelineSecurityReport) (rs : List PipelineSecurityReport)
    → find_report (key_of r.meta) (r ∷ rs) ≡ ok r
unfolding find_report
find_report_own r rs = rw (is_named_own r.meta) refl

reports-eq-nil :
    (rs : List PipelineSecurityReport)
    → ((nn : NamespacedName) → (e : Error) × (find_report nn rs ≡ err e))
    → rs ≡ []
reports-eq-nil [] h = refl
reports-eq-nil (r ∷ rs) h =
    let (e, missing) = h (key_of r.meta) in let there = find_report_own r rs in cc

pub memory-Keeps : Keeps memory (HasNoReport memory)
unfolding update_in replace_report find_report
memory-Keeps = record {
  report = λ s r h nn. rw (reports-eq-nil s.reports h) (not_found nn.name, refl);
  policy = λ s p h. h;
  workload = λ s kind nn patch h. h;
  object = λ s gvk nn patch h. h;
  post = λ s url body h. h;
}
