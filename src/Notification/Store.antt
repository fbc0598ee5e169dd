-- ===== src/Notification/Store.antt =====
-- domain/entities/notification.entity.ts, domain/enums, and the methods of
-- infrastructure/repositories/notification.repository.drizzle.ts that a dispatch and a reader call.
use nest_rest_backend_templa.Prelude.{
  ℕ, ◌+◌, String, Option, none, some, Bool, true, false, ◌&&◌, any, List, ◌==◌, string_eq,
}
use nest_rest_backend_templa.Exec.{Exec, ok}
use nest_rest_backend_templa.Sql.{select_first, update_where}

pub data NotificationChannel : Type 0 where
  in_app email telegram sms : NotificationChannel

pub data NotificationDeliveryStatus : Type 0 where
  pending sent failed : NotificationDeliveryStatus

pub record Notification : Type 0 where
  pub id : String
  pub user_id : String
  pub title : String
  pub content : String
  pub channel : NotificationChannel
  pub status : NotificationDeliveryStatus
  pub attempts : ℕ
  pub next_attempt_at : Option ℕ
  pub sent_at : Option ℕ
  pub failed_at : Option ℕ
  pub error_message : Option String
  pub is_read : Bool
  pub deleted_at : Option ℕ

-- The arguments of a SendMailCommand with the template `notification`.
pub record SentMail : Type 0 where
  pub to : String
  pub subject : String
  pub title : String
  pub content : String
  pub notification_id : String

pub record NotificationStore : Type 0 where
  pub notifications : List Notification
  pub mails : List SentMail

abbrev pub is_pending : NotificationDeliveryStatus → Bool
is_pending pending = true
is_pending _ = false

abbrev pub is_null : Option ℕ → Bool
is_null none = true
is_null (some t) = false

-- id = … AND deletedAt IS NULL
abbrev pub live_is : String → Notification → Bool
live_is id n = n.id == id && is_null n.deleted_at

-- findById
abbrev pub find_by_id : String → NotificationStore → Option Notification
find_by_id id s = select_first (live_is id) s.notifications

abbrev pub set_sent : ℕ → Notification → Notification
set_sent now n = record n {
  status = sent;
  sent_at = some now;
  failed_at = none;
  error_message = none;
}

-- markDispatchSent
abbrev pub mark_dispatch_sent : ℕ → String → Exec NotificationStore Bool
mark_dispatch_sent now id s = (
  ok (any (live_is id) s.notifications),
  record s { notifications = update_where (live_is id) (set_sent now) s.notifications },
)

abbrev pub status_after : Option ℕ → NotificationDeliveryStatus
status_after none = failed
status_after (some at) = pending

abbrev pub failed_at_after : ℕ → Option ℕ → Option ℕ
failed_at_after now none = some now
failed_at_after now (some at) = none

abbrev pub set_failed : (now : ℕ) (message : String) (next : Option ℕ) → Notification → Notification
set_failed now message next n = record n {
  status = status_after next;
  attempts = n.attempts + 1;
  next_attempt_at = next;
  failed_at = failed_at_after now next;
  error_message = some message;
}

-- markDispatchFailed
abbrev pub mark_dispatch_failed :
    (now : ℕ) (id message : String) (next : Option ℕ) → Exec NotificationStore Bool
mark_dispatch_failed now id message next s = (
  ok (any (live_is id) s.notifications),
  record s {
    notifications = update_where (live_is id) (set_failed now message next) s.notifications;
  },
)

abbrev pub own_live_is : (id user_id : String) → Notification → Bool
own_live_is id user_id n = n.id == id && (n.user_id == user_id && is_null n.deleted_at)

-- markAsRead
abbrev pub mark_as_read : (id user_id : String) → Exec NotificationStore Bool
mark_as_read id user_id s = (
  ok (any (own_live_is id user_id) s.notifications),
  record s {
    notifications =
        update_where (own_live_is id user_id) (λ n. record n { is_read = true }) s.notifications;
  },
)

-- delete
abbrev pub delete : (now : ℕ) (id user_id : String) → Exec NotificationStore Bool
delete now id user_id s = (
  ok (any (own_live_is id user_id) s.notifications),
  record s {
    notifications =
        update_where (own_live_is id user_id) (λ n. record n { deleted_at = some now })
          s.notifications;
  },
)
