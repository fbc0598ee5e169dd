-- ===== src/Notification/Dispatch.antt =====
-- infrastructure/processors/notification-dispatch.processor.ts
pub mod Outcome
use Prim.Native.String
use nest_rest_backend_templa.Prelude.{
  ℕ, ◌+◌, ◌*◌, ◌^◌, min, String, Option, none, some, Bool, not, leb, ◌++◌, List, [], ◌∷◌,
  if◌then◌else◌,
}
use nest_rest_backend_templa.Exec.{
  message_of, Exec, Result, ok, throw, Thrown, pure, raise, gets, error, http, locked, captcha,
  ◌>>=◌, ◌>>◌,
}
use nest_rest_backend_templa.Sql.{insert}
use nest_rest_backend_templa.Notification.Store.{
  NotificationStore, Notification, NotificationChannel, in_app, email, telegram, sms, SentMail,
  is_pending, find_by_id, mark_dispatch_sent, mark_dispatch_failed,
}

pub record NotificationDispatchJobData : Type 0 where
  pub notification_id : String
  pub user_id : String
  pub title : String
  pub content : String
  pub channel : NotificationChannel

-- What one run meets outside: the user's address in the table of users, whether the mail module
-- accepts the mail (it throws a message if not), the clock, and the job's counters.
pub record DispatchOutside : Type 0 where
  pub user_email : Option String
  pub mail_error : Option String
  pub now : ℕ
  pub marked_at : ℕ
  pub max_attempts : Option ℕ
  pub attempts_made : ℕ

abbrev channel_text : NotificationChannel → String
channel_text in_app = "in_app"
channel_text email = "email"
channel_text telegram = "telegram"
channel_text sms = "sms"

abbrev pub or_one : Option ℕ → ℕ
or_one none = 1
or_one (some n) = n

-- getNextAttemptAt; `nextAttemptNumber - 1` is `attemptsMade`
unfoldable pub get_next_attempt_at : DispatchOutside → Option ℕ
get_next_attempt_at o =
    if leb (or_one o.max_attempts) (o.attempts_made + 1)
    then none
    else some (o.now + min 60000 (1000 * 10 ^ o.attempts_made))

abbrev mail_to : String → NotificationDispatchJobData → SentMail
mail_to address job = record {
  to = address;
  subject = job.title;
  title = job.title;
  content = job.content;
  notification_id = job.notification_id;
}

-- commandBus.execute(new SendMailCommand(…))
abbrev send_mail : Option String → SentMail → Exec NotificationStore (Unit {0})
send_mail (some message) mail s = (throw (error message), s)
send_mail none mail s = (ok tt, record s { mails = insert mail s.mails })

module _ (o : DispatchOutside) (job : NotificationDispatchJobData) where
  dispatch_to : Option String → Exec NotificationStore (Unit {0})
  dispatch_to none = raise (error (String.◌++◌ "User " (String.◌++◌ job.user_id " not found")))
  dispatch_to (some address) = send_mail o.mail_error (mail_to address job)

  -- dispatchEmail
  unfoldable pub dispatch_email : Exec NotificationStore (Unit {0})
  unfolding dispatch_to
  dispatch_email = dispatch_to o.user_email

  -- `if (nextAttemptAt) throw error;`
  abbrev pub rethrow : Thrown → Option ℕ → Exec NotificationStore (Unit {0})
  rethrow t none = pure tt
  rethrow t (some at) = raise t

  -- The end of the `try`, and the `catch`.
  unfoldable pub finish : Result (Unit {0}) → Exec NotificationStore (Unit {0})
  finish (ok u) = do mark_dispatch_sent o.marked_at job.notification_id; pure tt
  finish (throw t) = do
    mark_dispatch_failed o.marked_at job.notification_id (message_of t) (get_next_attempt_at o)
    rethrow t (get_next_attempt_at o)

  abbrev pub unsupported : NotificationChannel → Exec NotificationStore (Unit {0})
  unsupported channel = do
    mark_dispatch_failed o.marked_at job.notification_id
        (String.◌++◌ "Unsupported notification channel: " (channel_text channel)) none
    pure tt

  unfoldable pub deliver : NotificationChannel → Exec NotificationStore (Unit {0})
  deliver in_app s = (do mark_dispatch_sent o.marked_at job.notification_id; pure tt) s
  deliver email s = let (r, s') = dispatch_email s in finish r s'
  deliver telegram s = unsupported telegram s
  deliver sms s = unsupported sms s

  unfoldable pub dispatch_found : Option Notification → Exec NotificationStore (Unit {0})
  dispatch_found none = pure tt
  dispatch_found (some notification) =
      if not (is_pending notification.status) then pure tt else deliver job.channel

  -- process
  unfoldable pub process_dispatch : Exec NotificationStore (Unit {0})
  process_dispatch = do
    notification ← gets (find_by_id job.notification_id)
    dispatch_found notification
