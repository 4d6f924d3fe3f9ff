-- ===== src/Alert/Laws.antt =====
-- The answers that count as delivered.
use fluxgate_operator.Prelude.{ℕ, ◌≤◌, ◌<◌, ◌≡◌, ◌↔◌, refl, Result, ok, err, String, arith}
use fluxgate_operator.Json.{Json}
use fluxgate_operator.Platform.{Platform}
use fluxgate_operator.Alert.{check_answer, send_webhook}

check_answer-eq-ok_iff :
    (what : String) (answer : Result ℕ)
    → (check_answer what answer ≡ ok tt) ↔ ((n : ℕ) × (answer ≡ ok n) × (200 ≤ n) × (n < 300))
unfolding check_answer
check_answer-eq-ok_iff what (err e) = (λ h. cc, λ (n, h, _, _). cc)
check_answer-eq-ok_iff what (ok status) =
    (λ h. (status, refl, ground arith, ground arith), λ (n, same, lo, hi). ground arith)

-- A webhook counts as notified exactly when the POST was answered, with a status from 200 to 299.
pub send_webhook-eq-ok_iff :
    (P : Platform) (url : String) (payload : Json) (s : P.State)
    → ((send_webhook P url payload s).0 ≡ ok tt)
      ↔ ((n : ℕ) × ((P.http_post s url payload).0 ≡ ok n) × (200 ≤ n) × (n < 300))
unfolding send_webhook
send_webhook-eq-ok_iff P url payload s =
    check_answer-eq-ok_iff "webhook" (P.http_post s url payload).0
