-- ===== src/Mail/Store.antt =====
-- domain/entities, the tables of common/drizzle/schema/mail.schema.ts and the repositories of
-- infrastructure/repositories. A value of MailTemplateType is its text, and so is a JSON value.
use mathlib.Core.Option
use nest_rest_backend_templa.Prelude.{
  ℕ, ◌+◌, String, Option, none, some, Bool, true, false, ◌&&◌, ltb, List, map, ◌==◌, string_eq,
}
use nest_rest_backend_templa.Exec.{
  Exec, http, error, bad_request, pure, gets, modify, or_throw, ◌>>=◌, ◌>>◌,
}
use nest_rest_backend_templa.Sql.{select_first, update_where, insert, join_first, join_where}

pub data MailStatus : Type 0 where
  pending sent failed : MailStatus

-- A row of the table `mail`.
pub record MailRow : Type 0 where
  pub id : String
  pub to : String
  pub subject : String
  pub template_id : String
  pub variables : String
  pub status : Option MailStatus
  pub attempts : Option ℕ
  pub created_at : ℕ
  pub sent_at : Option ℕ
  pub error_message : Option String
  pub deleted_at : Option ℕ

-- A row of the table `mail_template`.
pub record TemplateRow : Type 0 where
  pub id : String
  pub name : String
  pub subject : String
  pub content : Option String
  pub is_active : Option Bool
  pub created_at : ℕ
  pub updated_at : ℕ
  pub deleted_at : Option ℕ

-- mail.entity.ts
pub record Mail : Type 0 where
  pub id : String
  pub to : String
  pub subject : String
  pub template : String
  pub context : String
  pub status : MailStatus
  pub attempts : ℕ
  pub created_at : ℕ
  pub sent_at : Option ℕ
  pub error_message : Option String

abbrev pub mark_as_sent : (now : ℕ) → Mail → Mail
mark_as_sent now mail = record mail { status = sent; sent_at = some now }

abbrev pub mark_as_failed : (error_message : String) → Mail → Mail
mark_as_failed message mail = record mail {
  status = failed;
  attempts = mail.attempts + 1;
  error_message = some message;
}

abbrev pub has_failed : MailStatus → Bool
has_failed failed = true
has_failed sent = false
has_failed pending = false

abbrev pub can_retry : Mail → Bool
can_retry mail = has_failed mail.status && ltb mail.attempts 5

abbrev pub mark_for_retry : Mail → Mail
mark_for_retry mail = record mail { status = pending }

-- template.entity.ts
pub record Template : Type 0 where
  pub id : String
  pub name : String
  pub subject : String
  pub content : Option String
  pub is_active : Bool
  pub created_at : ℕ
  pub updated_at : ℕ

-- A job of the queue `mail`.
pub record SendMailJob : Type 0 where
  pub mail_id : String
  pub to : String
  pub subject : String
  pub template : String
  pub context : String

-- A mail that SMTP accepted.
pub record Delivered : Type 0 where
  pub to : String
  pub subject : String
  pub html : String

pub record MailStore : Type 0 where
  pub mails : List MailRow
  pub templates : List TemplateRow
  pub queue : List SendMailJob
  pub delivered : List Delivered

abbrev pub status_or_pending : Option MailStatus → MailStatus
status_or_pending none = pending
status_or_pending (some status) = status

abbrev pub attempts_or_zero : Option ℕ → ℕ
attempts_or_zero none = 0
attempts_or_zero (some n) = n

-- toDomain
abbrev pub mail_of : MailRow × TemplateRow → Mail
mail_of (row, template) = record {
  id = row.id;
  to = row.to;
  subject = row.subject;
  template = template.name;
  context = row.variables;
  status = status_or_pending row.status;
  attempts = attempts_or_zero row.attempts;
  created_at = row.created_at;
  sent_at = row.sent_at;
  error_message = row.error_message;
}

abbrev pub not_deleted_at : Option ℕ → Bool
not_deleted_at none = true
not_deleted_at (some at) = false

-- eq(mail.templateId, mailTemplate.id)
abbrev pub has_template : MailRow → TemplateRow → Bool
has_template row template = row.template_id == template.id

abbrev pub mail_row_is : String → MailRow → Bool
mail_row_is id row = row.id == id

abbrev pub live_mail_is : String → MailRow → Bool
live_mail_is id row = row.id == id && not_deleted_at row.deleted_at

-- findById
abbrev pub find_mail_by_id : String → MailStore → Option Mail
find_mail_by_id id s =
    Option.map mail_of (join_first (live_mail_is id) has_template s.mails s.templates)

abbrev pub same_status : MailStatus → Option MailStatus → Bool
same_status status none = false
same_status pending (some pending) = true
same_status pending (some sent) = false
same_status pending (some failed) = false
same_status sent (some pending) = false
same_status sent (some sent) = true
same_status sent (some failed) = false
same_status failed (some pending) = false
same_status failed (some sent) = false
same_status failed (some failed) = true

abbrev pub live_with_status : MailStatus → MailRow → Bool
live_with_status status row = same_status status row.status && not_deleted_at row.deleted_at

-- findByStatus
abbrev pub find_mails_by_status : MailStatus → MailStore → List Mail
find_mails_by_status status s =
    map mail_of (join_where (live_with_status status) has_template s.mails s.templates)

-- The columns of an update; `none` is undefined and leaves the column.
pub record MailUpdate : Type 0 where
  pub status : Option MailStatus
  pub attempts : Option ℕ
  pub sent_at : Option ℕ
  pub error_message : Option String

abbrev pub or_column {ℓ} : {A : Type ℓ} → Option A → Option A → Option A
or_column none column = column
or_column (some value) column = some value

abbrev pub with_update : MailUpdate → MailRow → MailRow
with_update update row = record row {
  status = or_column update.status row.status;
  attempts = or_column update.attempts row.attempts;
  sent_at = or_column update.sent_at row.sent_at;
  error_message = or_column update.error_message row.error_message;
}

-- update
unfoldable pub update_mail : String → MailUpdate → Exec MailStore Mail
update_mail id update = do
  modify (λ s. record s { mails = update_where (mail_row_is id) (with_update update) s.mails })
  found ← gets (find_mail_by_id id)
  or_throw found (error "mail.notFound")

-- delete
abbrev pub delete_mail : (now : ℕ) → String → Exec MailStore (Unit {0})
delete_mail now id = modify (λ s. record s {
  mails = update_where (mail_row_is id) (λ row. record row { deleted_at = some now }) s.mails;
})

abbrev pub live_template_named : String → TemplateRow → Bool
live_template_named name row = row.name == name && not_deleted_at row.deleted_at

abbrev pub is_active_or_true : Option Bool → Bool
is_active_or_true none = true
is_active_or_true (some is_active) = is_active

-- toDomain of the templates
abbrev pub template_of : TemplateRow → Template
template_of row = record {
  id = row.id;
  name = row.name;
  subject = row.subject;
  content = row.content;
  is_active = is_active_or_true row.is_active;
  created_at = row.created_at;
  updated_at = row.updated_at;
}

-- findByName
abbrev pub find_template_by_name : String → MailStore → Option Template
find_template_by_name name s =
    Option.map template_of (select_first (live_template_named name) s.templates)

-- Mail.create, as a row
abbrev pub pending_row :
    (id : String) (created_at : ℕ) (to subject template_id context : String) → MailRow
pending_row id created_at to subject template_id context = record {
  id = id;
  to = to;
  subject = subject;
  template_id = template_id;
  variables = context;
  status = some pending;
  attempts = some 0;
  created_at = created_at;
  sent_at = none;
  error_message = none;
  deleted_at = none;
}

-- create, of a mail with the template of that name; the database draws `id` and `created_at`
unfoldable pub create_mail :
    (id : String) (created_at : ℕ) (to subject template context : String) → Exec MailStore Mail
create_mail id created_at to subject template context = do
  found ← gets (λ s. select_first (live_template_named template) s.templates)
  row ← or_throw found (http bad_request "mail.templateNotFound")
  let created : MailRow = pending_row id created_at to subject row.id context
  modify (λ s. record s { mails = insert created s.mails })
  pure (mail_of (created, row))
