-- ===== src/Notification/Tests.antt =====
-- Runs of a dispatch on concrete data, and the theorems about it at those inputs.
use nest_rest_backend_templa.Prelude.{ℕ, ◌≡◌, refl, none, some, false, [], ◌∷◌}
use nest_rest_backend_templa.Exec.{ok}
use nest_rest_backend_templa.Sql.{select_first, update_where}
use nest_rest_backend_templa.Notification.Store.{
  NotificationStore, Notification, email, pending, find_by_id,
}
use nest_rest_backend_templa.Notification.Dispatch.{
  NotificationDispatchJobData, DispatchOutside, dispatch_email, finish, deliver, dispatch_found,
  process_dispatch,
}
use nest_rest_backend_templa.Notification.Dispatch.Outcome.{
  Settled, process_dispatch_settles, process_dispatch_once,
}

abbrev notification : Notification
notification = record {
  id = "n1";
  user_id = "u1";
  title = "Disk";
  content = "full";
  channel = email;
  status = pending;
  attempts = 1;
  next_attempt_at = none;
  sent_at = none;
  failed_at = none;
  error_message = none;
  is_read = false;
  deleted_at = none;
}

abbrev start : NotificationStore
start = record { notifications = notification ∷ []; mails = [] }

abbrev at_time : ℕ → DispatchOutside
at_time t = record {
  user_email = some "ann@x";
  mail_error = none;
  now = t;
  marked_at = t;
  max_attempts = some 5;
  attempts_made = 1;
}

abbrev job : NotificationDispatchJobData
job = record {
  notification_id = "n1";
  user_id = "u1";
  title = "Disk";
  content = "full";
  channel = email;
}

notification_found : find_by_id "n1" start ≡ some notification
unfolding select_first
notification_found = refl

it_is_sent : (process_dispatch (at_time 5) job start).0 ≡ ok tt
unfolding process_dispatch dispatch_found deliver finish dispatch_email select_first update_where
it_is_sent = refl

process_dispatch_settles_example :
    (m : Notification) × (find_by_id "n1" (process_dispatch (at_time 5) job start).1 ≡ some m)
    × Settled (at_time 5) job notification start email (process_dispatch (at_time 5) job start) m
process_dispatch_settles_example =
    process_dispatch_settles (at_time 5) job notification start notification_found refl

process_dispatch_once_example :
    process_dispatch (at_time 9) job (process_dispatch (at_time 5) job start).1
    ≡ (ok tt, (process_dispatch (at_time 5) job start).1)
process_dispatch_once_example =
    process_dispatch_once (at_time 5) job start notification (at_time 9) job notification_found refl
      it_is_sent refl
