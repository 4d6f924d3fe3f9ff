-- ===== src/Alert.antt =====
-- internal/alert/alert.go: notifications by Slack and by webhook.
pub mod Laws
use fluxgate_operator.Prelude.{
  ℕ, ◌||◌, Result, ok, err, failure, wrap, String, ◌==◌, ◌<>◌, itoa, pos, ltb, leb, if◌then◌else◌,
}
use fluxgate_operator.Json.{Json, str, obj, field, end, Fields}
use fluxgate_operator.Platform.{Platform}

-- `slackMessage` as JSON: an empty channel is left out.
unfoldable pub slack_payload : String → String → Json
slack_payload channel message =
    if channel == ""
    then obj (field "text" (str message) end)
    else obj (field "channel" (str channel) (field "text" (str message) end))

-- The answer to a POST: any status outside 200 to 299 is an error.
unfoldable pub check_answer : String → Result ℕ → Result (Unit {0})
check_answer what (err e) = err (wrap ("posting to " <> what <> ": ") e)
check_answer what (ok status) =
    if ltb status 200 || leb 300 status
    then err (failure (what <> " returned status " <> itoa (pos status)))
    else ok tt

module _ (P : Platform) where
  -- `SendSlack`
  unfoldable pub send_slack : String → String → String → P.State → Result (Unit {0}) × P.State
  send_slack url channel message s =
      let (answer, s') = P.http_post s url (slack_payload channel message) in
      (check_answer "slack webhook" answer, s')

  -- `SendWebhook`
  unfoldable pub send_webhook : String → Json → P.State → Result (Unit {0}) × P.State
  send_webhook url payload s =
      let (answer, s') = P.http_post s url payload in (check_answer "webhook" answer, s')
