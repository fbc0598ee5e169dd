-- ===== src/Mail/Tests.antt =====
-- Runs of the mail module on concrete data, and its theorems at those inputs.
use nest_rest_backend_templa.Prelude.{◌≡◌, refl, none, some, true, [], ◌∷◌, arith}
use nest_rest_backend_templa.Exec.{ok}
use nest_rest_backend_templa.Sql.{join_first, select_first}
use nest_rest_backend_templa.Mail.Store.{
  MailStore, MailRow, TemplateRow, pending, mail_of, find_mail_by_id, find_mails_by_status,
}
use nest_rest_backend_templa.Mail.Service.{SendOutside, send_mail, send_all, process_queue}
use nest_rest_backend_templa.Mail.Service.Sent.{SentOrFailed, send_mail_refines}
use nest_rest_backend_templa.Mail.Service.Queue.{process_queue-eq}

abbrev welcome : TemplateRow
welcome = record {
  id = "t1";
  name = "welcome";
  subject = "Hello";
  content = some "Hello {{name}}";
  is_active = some true;
  created_at = 1;
  updated_at = 1;
  deleted_at = none;
}

abbrev row : MailRow
row = record {
  id = "m1";
  to = "ann@x";
  subject = "Hi";
  template_id = "t1";
  variables = "{}";
  status = some pending;
  attempts = some 1;
  created_at = 2;
  sent_at = none;
  error_message = none;
  deleted_at = none;
}

abbrev start : MailStore
start = record { mails = row ∷ []; templates = welcome ∷ []; queue = []; delivered = [] }

abbrev outside : SendOutside
outside = record {
  template_file = λ name. none;
  render = λ content context. ok content;
  smtp_error = none;
  sent_at = 9;
}

it_is_found : find_mail_by_id "m1" start ≡ some (mail_of (row, welcome))
unfolding join_first select_first
it_is_found = refl

send_mail_refines_example :
    SentOrFailed outside "m1" "ann@x" "Hi" "welcome" "{}" start
      (send_mail outside "m1" "ann@x" "Hi" "welcome" "{}" start)
      (mail_of (row, welcome))
send_mail_refines_example =
    send_mail_refines outside "m1" "ann@x" "Hi" "welcome" "{}" start (mail_of (row, welcome))
      it_is_found

process_queue-eq_example :
    process_queue (λ id. outside) 5 50 start
    ≡ some (send_all (λ id. outside) (find_mails_by_status pending start) start)
process_queue-eq_example = process_queue-eq (λ id. outside) 5 50 (omega arith) (omega arith) start
