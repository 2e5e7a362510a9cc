-- ===== src/Alerts/Callbacks.antt =====
-- What `on_failure` of airflow/dags/utils/alerting.py sends, however its messages fare.
use snowflake_trade_pipeline.Prelude.{
  String, ◌≡◌, refl, sym, ap, ◌∙◌, inl, inr, ◌&&◌, List, [], ◌∷◌, ◌++◌, if◌then◌else◌, Bool-cases,
}
use mathlib.Core.List.{append_assoc, append-nil}
use snowflake_trade_pipeline.Result.{Result, ok, err}
use snowflake_trade_pipeline.Deploy.Render.{has_chars}
use snowflake_trade_pipeline.Alerts.{
  Context, Info, extract, is_final, failure_subject, failure_text, Message, mail, slack, Delivery,
  delivered, caught, uncaught, send_email, send_slack, notify_failure, never_raises, on_failure,
}

-- The mail, where an address is set, and the message to Slack, where a webhook is set and
-- `try_number` is `max_tries`.
abbrev pub failure_messages : String → String → Info → List Message
failure_messages alert_email slack_webhook_url info =
    (if has_chars alert_email then mail (failure_subject info) ∷ [] else [])
    ++ (if is_final info && has_chars slack_webhook_url then slack (failure_text info) ∷ [] else [])

module _ (alert_email slack_webhook_url : String) (deliver : Message → Delivery) where
  settled :
      (d : Delivery) (sent : List Message)
      → never_raises (
        elim d as (λ _. Result (Unit {0})) [
          | delivered ↦ ok tt
          | caught ↦ ok tt
          | uncaught e ↦ err e
        ],
        sent,
      )
        ≡ (ok tt, sent)
  unfolding never_raises
  settled delivered sent = refl
  settled caught sent = refl
  settled (uncaught e) sent = refl

  slack_messages :
      (words : String) (sent : List Message)
      → never_raises (send_slack alert_email slack_webhook_url deliver words sent)
        ≡ (ok tt, sent ++ (if has_chars slack_webhook_url then slack words ∷ [] else []))
  unfolding never_raises send_slack
  slack_messages words sent = elim (Bool-cases (has_chars slack_webhook_url)) [
    | inl e ↦ rw (e, send_slack) (settled (deliver (slack words)) (sent ++ slack words ∷ []))
    | inr e ↦ rw (e, send_slack) (ap (λ x. (ok tt, x)) (sym (append-nil sent)))
  ]

  send_email-sent :
      (subject : String) (sent : List Message)
      → send_email alert_email slack_webhook_url deliver subject sent
        ≡ (ok tt, sent ++ (if has_chars alert_email then mail subject ∷ [] else []))
  unfolding send_email
  send_email-sent subject sent = elim (Bool-cases (has_chars alert_email)) [
    | inl e ↦ rw (e, send_email) refl
    | inr e ↦ rw (e, send_email) (ap (λ x. (ok tt, x)) (sym (append-nil sent)))
  ]

  last_attempt :
      (info : Info) (later : List Message)
      → never_raises (
          if is_final info
          then send_slack alert_email slack_webhook_url deliver (failure_text info) later
          else (ok tt, later))
        ≡ (
          ok tt,
          later
              ++ (if is_final info && has_chars slack_webhook_url
                  then slack (failure_text info) ∷ []
                  else []),
        )
  unfolding never_raises
  last_attempt info later = elim (Bool-cases (is_final info)) [
    | inl e ↦ rw e (slack_messages (failure_text info) later)
    | inr e ↦ rw e (ap (λ x. (ok tt, x)) (sym (append-nil later)))
  ]

  -- Whatever becomes of the messages, the callback of a failed task raises nothing: it has tried
  -- one mail if an address is set, and behind it a message to Slack if a webhook is set and
  -- `try_number` is `max_tries`.
  pub on_failure-sent :
      (context : Context) (sent : List Message)
      → on_failure alert_email slack_webhook_url deliver context sent
        ≡ (ok tt, sent ++ failure_messages alert_email slack_webhook_url (extract context))
  unfolding on_failure notify_failure
  on_failure-sent context sent =
      let info = extract context in
      let mails = if has_chars alert_email then mail (failure_subject info) ∷ [] else [] in
      ap
        (λ p. never_raises (elim p.0 as (λ _. Result (Unit {0}) × List Message) [
          | err e ↦ (err e, p.1)
          | ok _ ↦
              if is_final info
              then send_slack alert_email slack_webhook_url deliver (failure_text info) p.1
              else (ok tt, p.1)
        ]))
        (send_email-sent (failure_subject info) sent)
      ∙ last_attempt info (sent ++ mails)
      ∙ ap (λ x. (ok tt, x)) (append_assoc sent mails _)
