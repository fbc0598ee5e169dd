-- ===== src/Mail/Retry.antt =====
-- application/handlers/retry-failed-mails.handler.ts and the query handlers of mails.
use nest_rest_backend_templa.Prelude.{ℕ, String, Option, none, some, List, [], ◌∷◌, length}
use nest_rest_backend_templa.Exec.{
  Exec, Result, ok, throw, http, not_found, pure, gets, ◌>>=◌, ◌>>◌,
}
use nest_rest_backend_templa.Sql.{select_where}
use nest_rest_backend_templa.Mail.Store.{
  MailStore, Mail, MailUpdate, MailStatus, pending, failed, can_retry, update_mail, find_mail_by_id,
  find_mails_by_status,
}
use nest_rest_backend_templa.Mail.Service.{add_to_queue}

abbrev pub pending_update : MailUpdate
pending_update = record {
  status = some pending;
  attempts = none;
  sent_at = none;
  error_message = none;
}

abbrev pub retry_one : Mail → Exec MailStore (Unit {0})
retry_one mail = do update_mail mail.id pending_update; add_to_queue mail

-- The loop.
unfoldable pub retry_all : List Mail → Exec MailStore (Unit {0})
retry_all [] = pure tt
retry_all (mail ∷ mails) = do retry_one mail; retry_all mails

-- failedMails.filter((mail) => mail.canRetry())
abbrev pub retryable : MailStore → List Mail
retryable s = select_where can_retry (find_mails_by_status failed s)

-- RetryFailedMailsHandler.execute
unfoldable pub retry_failed_mails : Exec MailStore ℕ
retry_failed_mails = do mails ← gets retryable; retry_all mails; pure (length mails)

pub record MailStatusResult : Type 0 where
  pub id : String
  pub status : MailStatus
  pub attempts : ℕ
  pub created_at : ℕ
  pub sent_at : Option ℕ
  pub error_message : Option String

abbrev status_result : Option Mail → Result MailStatusResult
status_result none = throw (http not_found "mail.notFound")
status_result (some mail) = ok (record {
  id = mail.id;
  status = mail.status;
  attempts = mail.attempts;
  created_at = mail.created_at;
  sent_at = mail.sent_at;
  error_message = mail.error_message;
})

-- GetMailStatusHandler.execute
abbrev pub get_mail_status : String → MailStore → Result MailStatusResult
get_mail_status id s = status_result (find_mail_by_id id s)
