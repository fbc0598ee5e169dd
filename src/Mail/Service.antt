-- ===== src/Mail/Service.antt =====
-- infrastructure/services/mail.service.ts, infrastructure/processors/mail.processor.ts and
-- application/handlers/send-mail.handler.ts.
pub mod Sent
pub mod Queue
use nest_rest_backend_templa.Prelude.{
  ℕ, zero, suc, ◌+◌, ◌-◌, String, Option, none, some, Bool, true, false, not, ◌||◌, leb, List, [],
  ◌∷◌, length, take, drop, ◌==◌, string_eq, if◌then◌else◌, present,
}
use nest_rest_backend_templa.Exec.{
  Exec, Result, ok, throw, Thrown, http, error, bad_request, message_of, lift, pure, gets, modify,
  raise, throw_if, or_throw, try_ignore, ◌>>=◌, ◌>>◌,
}
use nest_rest_backend_templa.Sql.{insert}
use nest_rest_backend_templa.Mail.Store.{
  MailStore, Mail, Template, SendMailJob, Delivered, MailUpdate, MailStatus, sent, failed, pending,
  update_mail, find_mail_by_id, find_mails_by_status, find_template_by_name, create_mail,
}

-- The files of templates (`none` where one cannot be read), Handlebars, and, for the mail that is
-- sent, what SMTP answers and the time at which it has.
pub record SendOutside : Type 0 where
  pub template_file : String → Option String
  pub render : (content context : String) → Result String
  pub smtp_error : Option String
  pub sent_at : ℕ

abbrev pub file_or_throw : Option String → Result String
file_or_throw none = throw (error "mail.templateFileNotFound")
file_or_throw (some content) = ok content

-- The text of the template: that of the row, if it is not empty, or that of its file.
abbrev pub content_of : SendOutside → (template : String) → Option String → Result String
content_of o template none = file_or_throw (o.template_file template)
content_of o template (some content) = ok content

-- subject || templateEntity.subject
abbrev pub final_subject : (subject of_template : String) → String
final_subject subject of_template = if subject == "" then of_template else subject

-- mailerService.sendMail
abbrev pub smtp : Option String → Delivered → Exec MailStore (Unit {0})
smtp none mail = modify (λ s. record s { delivered = insert mail s.delivered })
smtp (some message) mail = raise (error message)

abbrev pub sent_update : ℕ → MailUpdate
sent_update now = record {
  status = some sent;
  attempts = none;
  sent_at = some now;
  error_message = none;
}

abbrev pub failed_update : (attempts : ℕ) (message : String) → MailUpdate
failed_update attempts message = record {
  status = some failed;
  attempts = some attempts;
  sent_at = none;
  error_message = some message;
}

abbrev pub attempts_of : Option Mail → ℕ
attempts_of none = 0
attempts_of (some mail) = mail.attempts

module _ (o : SendOutside) (mail_id to subject template context : String) where
  -- The `try`, up to the call of the mailer.
  unfoldable pub deliver_mail : Exec MailStore (Unit {0})
  deliver_mail = do
    found ← gets (find_template_by_name template)
    entity ← or_throw found (error "mail.templateNotFound")
    throw_if (not entity.is_active) (error "mail.templateInactive")
    content ← lift (content_of o template (present entity.content))
    html ← lift (o.render content context)
    smtp o.smtp_error
        (record { to = to; subject = final_subject subject entity.subject; html = html })

  -- The `try`.
  unfoldable pub try_send : Exec MailStore (Unit {0})
  try_send = do deliver_mail; update_mail mail_id (sent_update o.sent_at); pure tt

  -- The `catch`.
  unfoldable pub caught : Result (Unit {0}) → Exec MailStore (Unit {0})
  caught (ok u) = pure u
  caught (throw t) = do
    mail ← gets (find_mail_by_id mail_id)
    update_mail mail_id (failed_update (attempts_of mail + 1) (message_of t))
    raise t

  -- sendMail
  unfoldable pub send_mail : Exec MailStore (Unit {0})
  send_mail s = let (r, s') = try_send s in caught r s'

-- addToQueue
abbrev pub add_to_queue : Mail → Exec MailStore (Unit {0})
add_to_queue mail = modify (λ s. record s {
  queue =
      insert
        (record {
          mail_id = mail.id;
          to = mail.to;
          subject = mail.subject;
          template = mail.template;
          context = mail.context;
        })
        s.queue;
})

-- MailProcessor.process
abbrev pub process_job : SendOutside → SendMailJob → Exec MailStore (Unit {0})
process_job o job = send_mail o job.mail_id job.to job.subject job.template job.context

-- SendMailHandler.execute
unfoldable pub execute_send_mail :
    (id : String) (created_at : ℕ) (to subject template context : String) → Exec MailStore String
execute_send_mail id created_at to subject template context = do
  throw_if (to == "" || subject == "" || template == "")
      (http bad_request "mail.sendRequiredFields")
  saved ← create_mail id created_at to subject template context
  add_to_queue saved
  pure saved.id

-- chunkArray from `i` on, with fuel; `none` is a loop that did not end.
module _ {A : Type 0} (array : List A) (chunk_size : ℕ) where
  abbrev pub with_chunk : List A → Option (List (List A)) → Option (List (List A))
  with_chunk chunk none = none
  with_chunk chunk (some chunks) = some (chunk ∷ chunks)

  unfoldable pub chunks_from : (fuel i : ℕ) → Option (List (List A))
  chunks_from zero i = none
  chunks_from (suc fuel) i =
      let rest = chunks_from fuel (i + chunk_size) in
      if leb (length array) i then some [] else with_chunk (take chunk_size (drop i array)) rest

  -- chunkArray; with chunks that are not empty, one turn for each element is enough
  abbrev pub chunk_array : Option (List (List A))
  chunk_array = chunks_from (suc (length array)) 0

-- `o` is what the sending of a mail meets, by its id. The sends of a chunk run at the same time in
-- the code and one after the other here; none of them reads what another writes, as each looks only
-- at the row of its own mail and at the templates.
module _ (o : String → SendOutside) where
  -- sendMail(…).catch(…)
  abbrev pub send_settled : Mail → Exec MailStore (Unit {0})
  send_settled mail =
      try_ignore (send_mail (o mail.id) mail.id mail.to mail.subject mail.template mail.context)

  -- Promise.allSettled over a chunk
  unfoldable pub send_all : List Mail → Exec MailStore (Unit {0})
  send_all [] = pure tt
  send_all (mail ∷ mails) = do send_settled mail; send_all mails

  unfoldable pub send_chunks : List (List Mail) → Exec MailStore (Unit {0})
  send_chunks [] = pure tt
  send_chunks (chunk ∷ chunks) = do send_all chunk; send_chunks chunks

  abbrev pub or_hang :
      {A : Type 0}
      → Option A
      → (A → Exec MailStore (Unit {0}))
      → MailStore
      → Option (Result (Unit {0}) × MailStore)
  or_hang none f s = none
  or_hang (some a) f s = some (f a s)

  abbrev pub then_rest :
      (MailStore → Option (Result (Unit {0}) × MailStore))
      → Option (Result (Unit {0}) × MailStore)
      → Option (Result (Unit {0}) × MailStore)
  then_rest next none = none
  then_rest next (some (r, s)) = next s

  module _ (concurrency batch_size : ℕ) (pending_mails : List Mail) where
    -- The loop over the batches, from `i` on; `none` is a loop that did not end.
    unfoldable pub send_batches : (fuel i : ℕ) → MailStore → Option (Result (Unit {0}) × MailStore)
    send_batches zero i s = none
    send_batches (suc fuel) i s =
        let rest = send_batches fuel (i + batch_size) in
        if leb (length pending_mails) i
        then some (ok tt, s)
        else then_rest rest (
            or_hang (chunk_array (take batch_size (drop i pending_mails)) concurrency) send_chunks
              s)

  -- processQueue
  unfoldable pub process_queue :
      (concurrency batch_size : ℕ) → MailStore → Option (Result (Unit {0}) × MailStore)
  process_queue concurrency batch_size s =
      let mails = find_mails_by_status pending s in
      send_batches concurrency batch_size mails (suc (length mails)) 0 s
