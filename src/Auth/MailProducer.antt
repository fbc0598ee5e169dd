-- ===== src/Auth/MailProducer.antt =====
-- infrastructure/services/mail-producer.service.ts: queueing a mail.
use nest_rest_backend_templa.Prelude.{String, Option, none, some, Bool, ◌&&◌, List, ◌==◌, string_eq}
use nest_rest_backend_templa.Exec.{Exec, ok, throw, raise, http, bad_request, error}
use nest_rest_backend_templa.Sql.{select_first, insert}
use nest_rest_backend_templa.Auth.Store.{
  AuthStore, MailTemplateRow, MailRow, SendMailJob, ContextValue, pending, is_null,
}

pub record QueueMailPayload : Type 0 where
  pub to : String
  pub subject : String
  pub template : String
  pub context : List (String × ContextValue)

-- What a run meets outside: the id that the database draws, and whether the queue is reached
-- (`mailQueue.add` rejects with a message if it is not).
pub record MailOutside : Type 0 where
  pub mail_id : String
  pub queue_error : Option String

abbrev pub template_is : String → MailTemplateRow → Bool
template_is name t = t.name == name && is_null t.deleted_at

abbrev mail_row : MailOutside → QueueMailPayload → MailTemplateRow → MailRow
mail_row o m template = record {
  id = o.mail_id;
  to = m.to;
  subject = m.subject;
  template_id = template.id;
  status = pending;
  variables = m.context;
  attempts = 0;
}

abbrev send_mail_job : MailOutside → QueueMailPayload → SendMailJob
send_mail_job o m = record {
  mail_id = o.mail_id;
  to = m.to;
  subject = m.subject;
  template = m.template;
  context = m.context;
}

-- mailQueue.add('send-mail', …)
abbrev add_job : Option String → SendMailJob → Exec AuthStore (Unit {0})
add_job (some message) job s = (throw (error message), s)
add_job none job s = (ok tt, record s { mail_queue = insert job s.mail_queue })

queue_with : MailOutside → QueueMailPayload → Option MailTemplateRow → Exec AuthStore (Unit {0})
queue_with o m none = raise (http bad_request "mail.templateNotFound")
queue_with o m (some template) = λ s.
    add_job o.queue_error (send_mail_job o m)
      (record s { mails = insert (mail_row o m template) s.mails })

-- queueMail
unfoldable pub queue_mail : MailOutside → QueueMailPayload → Exec AuthStore (Unit {0})
unfolding queue_with
queue_mail o m s = queue_with o m (select_first (template_is m.template) s.mail_templates) s
