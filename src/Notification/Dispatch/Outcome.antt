-- ===== src/Notification/Dispatch/Outcome.antt =====
-- What a dispatch leaves behind: sent, failed for good, or waiting for the next attempt.

use Prim.Native.String
use nest_rest_backend_templa.Prelude.{
  ◌<◌, ap, Option, [], ◌∷◌, ◌++◌, ℕ, ◌+◌, ◌*◌, ◌^◌, ◌≤◌, min, String, ◌≡◌, ◌⊎◌, refl, sym, ◌∙◌,
  subst, none, some, true, false, leb, string_eq, arith, Option-cases, inl, inr, if◌then◌else◌,
}
use nest_rest_backend_templa.Exec.{ok, throw, error, Thrown, Result}
use nest_rest_backend_templa.Sql.{update_where}
use nest_rest_backend_templa.Sql.Laws.{select_first-update, select_first-holds}
use nest_rest_backend_templa.Notification.Store.{
  NotificationStore, Notification, NotificationChannel, in_app, email, telegram, sms, pending, sent,
  failed, is_pending, live_is, find_by_id, set_sent, set_failed,
}
use nest_rest_backend_templa.Notification.Dispatch.{
  NotificationDispatchJobData, DispatchOutside, get_next_attempt_at, dispatch_email, finish,
  deliver, or_one, dispatch_found, process_dispatch,
}

abbrev with_rows : String → (Notification → Notification) → NotificationStore → NotificationStore
with_rows id f s = record s { notifications = update_where (live_is id) f s.notifications }

find-with_rows :
    (id : String) (f : Notification → Notification) (s : NotificationStore) (n : Notification)
    → ((m : Notification) → live_is id (f m) ≡ live_is id m)
    → find_by_id id s ≡ some n
    → find_by_id id (with_rows id f s) ≡ some (f n)
find-with_rows id f s n keep found =
    let hit : live_is id n ≡ true = select_first-holds (live_is id) s.notifications n found in
    select_first-update (live_is id) (live_is id) f s.notifications (λ m. ground (arith, keep m))
    ∙ simp (found, hit)

-- The attempt of this run is the last, or there is one after it; a job without `attempts` has one.
abbrev pub IsLast : Option ℕ → ℕ → Type 0
IsLast none made = Unit
IsLast (some attempts) made = attempts ≤ made + 1

abbrev pub IsNotLast : Option ℕ → ℕ → Type 0
IsNotLast none made = ⊥
IsNotLast (some attempts) made = made + 1 < attempts

none-IsLast :
    (attempts : Option ℕ) (made at : ℕ)
    → (if leb (or_one attempts) (made + 1) then none else some at) ≡ none
    → IsLast attempts made
none-IsLast none made at e = tt
none-IsLast (some attempts) made at e = ground (arith, e)

some-IsNotLast :
    (attempts : Option ℕ) (made at next : ℕ)
    → (if leb (or_one attempts) (made + 1) then none else some at) ≡ some next
    → IsNotLast attempts made × (next ≡ at)
some-IsNotLast none made at next e = absurd (ground (arith, e))
some-IsNotLast (some attempts) made at next e = ground (arith, e)

next_attempt_none :
    (o : DispatchOutside) → get_next_attempt_at o ≡ none → IsLast o.max_attempts o.attempts_made
unfolding get_next_attempt_at
next_attempt_none o e = none-IsLast o.max_attempts o.attempts_made _ e

next_attempt_some :
    (o : DispatchOutside) (at : ℕ)
    → get_next_attempt_at o ≡ some at
    → IsNotLast o.max_attempts o.attempts_made
      × (at ≡ o.now + min 60000 (1000 * 10 ^ o.attempts_made))
unfolding get_next_attempt_at
next_attempt_some o at e = some-IsNotLast o.max_attempts o.attempts_made _ at e

-- What happens to the mail of a dispatch.
abbrev pub MailTaken : DispatchOutside → (address : String) → Type 0
MailTaken o address = (o.user_email ≡ some address) × (o.mail_error ≡ none)

abbrev pub MailFails : DispatchOutside → Type 0
MailFails o =
    (o.user_email ≡ none)
    ⊎ ((address : String) × (message : String) × (o.user_email ≡ some address)
        × (o.mail_error ≡ some message))

module _ (o : DispatchOutside) (job : NotificationDispatchJobData) (n : Notification)
    (before : NotificationStore) where
  -- In the app there is nothing to deliver; a mail is taken once; the other channels have no sender.
  abbrev pub Delivered : NotificationChannel → NotificationStore → Type 0
  Delivered in_app after = after.mails ≡ before.mails
  Delivered email after =
      (address : String) × MailTaken o address
      × (after.mails
          ≡ before.mails
            ++ record {
              to = address;
              subject = job.title;
              title = job.title;
              content = job.content;
              notification_id = job.notification_id;
            }
              ∷ [])
  Delivered telegram after = ⊥
  Delivered sms after = ⊥

  abbrev pub Undelivered : NotificationChannel → NotificationStore → Type 0
  Undelivered in_app after = ⊥
  Undelivered email after = MailFails o × (after.mails ≡ before.mails)
  Undelivered telegram after = ⊥
  Undelivered sms after = ⊥

  abbrev pub Unsupported : NotificationChannel → NotificationStore → Type 0
  Unsupported in_app after = ⊥
  Unsupported email after = ⊥
  Unsupported telegram after = after.mails ≡ before.mails
  Unsupported sms after = after.mails ≡ before.mails

  -- What the notification is after the run and what the run answers, by what happened.
  abbrev pub Settled :
      NotificationChannel → Result (Unit {0}) × NotificationStore → Notification → Type 0
  Settled channel w m =
      (Delivered channel w.1 × (m.status ≡ sent) × (m.attempts ≡ n.attempts) × (w.0 ≡ ok tt))
      ⊎ ((Unsupported channel w.1
            ⊎ (Undelivered channel w.1 × IsLast o.max_attempts o.attempts_made))
          × (m.status ≡ failed)
          × (m.attempts ≡ n.attempts + 1)
          × (w.0 ≡ ok tt))
      ⊎ (Undelivered channel w.1
          × IsNotLast o.max_attempts o.attempts_made
          × (m.status ≡ pending)
          × (m.attempts ≡ n.attempts + 1)
          × (m.next_attempt_at ≡ some (o.now + min 60000 (1000 * 10 ^ o.attempts_made)))
          × ((t : Thrown) × (w.0 ≡ throw t)))

  abbrev After : NotificationChannel → Result (Unit {0}) × NotificationStore → Type 0
  After channel w =
      (m : Notification) × (find_by_id job.notification_id w.1 ≡ some m) × Settled channel w m

  -- After a mail that was taken, and after one that was not.
  finish-Sent :
      (s : NotificationStore)
      → find_by_id job.notification_id s ≡ some n
      → Delivered email s
      → After email (finish o job (ok tt) s)
  unfolding finish
  finish-Sent s found delivered = (
    set_sent o.marked_at n,
    find-with_rows job.notification_id (set_sent o.marked_at) s n (λ m. refl) found,
    inl (delivered, refl, refl, refl),
  )

  finish-Failed :
      (t : Thrown) (s : NotificationStore)
      → find_by_id job.notification_id s ≡ some n
      → Undelivered email s
      → After email (finish o job (throw t) s)
  unfolding finish
  finish-Failed t s found undelivered = elim (Option-cases (get_next_attempt_at o)) [
    | inl none_left ↦ rw none_left (
      _,
      find-with_rows job.notification_id (set_failed o.marked_at _ none) s n (λ m. refl) found,
      inr (inl (inr (undelivered, next_attempt_none o none_left), refl, refl, refl)),
    )
    | inr (at, next) ↦
        let (more, due) = next_attempt_some o at next in
        rw next (
          _,
          find-with_rows job.notification_id (set_failed o.marked_at _ (some at)) s n (λ m. refl)
              found,
          inr (inr (undelivered, more, refl, refl, ap some due, (t, refl))),
        )
  ]

  no_address :
      o.user_email ≡ none → (t : Thrown) × (dispatch_email o job before ≡ (throw t, before))
  unfolding dispatch_email
  no_address missing =
      (error (String.◌++◌ "User " (String.◌++◌ job.user_id " not found")), simp missing)

  mail_refused :
      (address message : String)
      → o.user_email ≡ some address
      → o.mail_error ≡ some message
      → dispatch_email o job before ≡ (throw (error message), before)
  unfolding dispatch_email
  mail_refused address message there broken = simp (there, broken)

  abbrev with_mail : String → NotificationStore
  with_mail address = record before {
    mails =
        before.mails
        ++ record {
          to = address;
          subject = job.title;
          title = job.title;
          content = job.content;
          notification_id = job.notification_id;
        }
          ∷ [];
  }

  mail_taken :
      (address : String)
      → MailTaken o address
      → dispatch_email o job before ≡ (ok tt, with_mail address)
  unfolding dispatch_email
  mail_taken address (there, accepted) = simp (there, accepted)

  finished :
      (w : Result (Unit {0}) × NotificationStore)
      → dispatch_email o job before ≡ w
      → After email (finish o job w.0 w.1)
      → After email (finish o job (dispatch_email o job before).0 (dispatch_email o job before).1)
  finished w e =
      subst (λ (v : Result (Unit {0}) × NotificationStore). After email (finish o job v.0 v.1))
        (sym e)

  email-After :
      find_by_id job.notification_id before ≡ some n
      → After email (finish o job (dispatch_email o job before).0 (dispatch_email o job before).1)
  email-After found = elim (Option-cases o.user_email) [
    | inl missing ↦
        let (t, thrown) = no_address missing in
        finished (throw t, before) thrown (finish-Failed t before found (inl missing, refl))
    | inr (address, there) ↦ elim (Option-cases o.mail_error) [
      | inl accepted ↦
          finished (ok tt, with_mail address) (mail_taken address (there, accepted))
            (finish-Sent (with_mail address) found (address, (there, accepted), refl))
      | inr (message, broken) ↦
          finished (throw (error message), before) (mail_refused address message there broken)
            (finish-Failed (error message) before found
              (inr (address, message, there, broken), refl))
    ]
  ]

  deliver-After :
      (channel : NotificationChannel)
      → find_by_id job.notification_id before ≡ some n
      → After channel (deliver o job channel before)
  unfolding deliver
  deliver-After in_app found = (
    set_sent o.marked_at n,
    find-with_rows job.notification_id (set_sent o.marked_at) before n (λ m. refl) found,
    inl (refl, refl, refl, refl),
  )
  deliver-After email found = email-After found
  deliver-After telegram found = (
    _,
    find-with_rows job.notification_id (set_failed o.marked_at _ none) before n (λ m. refl) found,
    inr (inl (inl refl, refl, refl, refl)),
  )
  deliver-After sms found = (
    _,
    find-with_rows job.notification_id (set_failed o.marked_at _ none) before n (λ m. refl) found,
    inr (inl (inl refl, refl, refl, refl)),
  )

  -- A run for a pending notification ends in one of three ways. Either it was delivered (in the
  -- app without a mail, by mail with exactly the one mail of the job to the user's address): then
  -- it is sent, with no attempt more, and the run does not throw. Or no mail was taken, and either
  -- the channel has no sender or the mail failed (no user, or the mailer threw) in the job's last
  -- attempt: then it is failed, with one attempt more, and the run does not throw. Or the mail
  -- failed before the last attempt: then it is pending, with one attempt more, the next one due
  -- after one second times ten to the attempts made before, a minute at most, and the run throws,
  -- so that the queue tries again.
  pub process_dispatch_settles :
      find_by_id job.notification_id before ≡ some n
      → is_pending n.status ≡ true
      → (m : Notification) × (find_by_id job.notification_id (process_dispatch o job before).1
          ≡ some m)
        × Settled job.channel (process_dispatch o job before) m
  unfolding process_dispatch dispatch_found
  process_dispatch_settles found open_ = simp (found, open_) (deliver-After job.channel found)

is_done :
    (o : DispatchOutside) (job : NotificationDispatchJobData) (n m : Notification)
    (before : NotificationStore) (w : Result (Unit {0}) × NotificationStore)
    → Settled o job n before job.channel w m
    → w.0 ≡ ok tt
    → is_pending m.status ≡ false
is_done o job n m before w (inl (happened, status, count, reply)) e = rw status refl
is_done o job n m before w (inr (inl (happened, status, count, reply))) e = rw status refl
is_done o job n m before w (inr (inr (happened, more, status, count, due, (t, thrown)))) e =
    absurd (ground (arith, e, thrown))

skipped :
    (o : DispatchOutside) (job : NotificationDispatchJobData) (s : NotificationStore)
    (n : Notification)
    → find_by_id job.notification_id s ≡ some n
    → is_pending n.status ≡ false
    → process_dispatch o job s ≡ (ok tt, s)
unfolding process_dispatch dispatch_found
skipped o job s n found shut = simp (found, shut)

-- A notification is dispatched once: after a run for a pending one that did not throw, every later
-- run for it does nothing, so no second mail is sent.
pub process_dispatch_once :
    (o : DispatchOutside) (job : NotificationDispatchJobData) (s : NotificationStore)
    (n : Notification) (o' : DispatchOutside) (job' : NotificationDispatchJobData)
    → find_by_id job.notification_id s ≡ some n
    → is_pending n.status ≡ true
    → (process_dispatch o job s).0 ≡ ok tt
    → job'.notification_id ≡ job.notification_id
    → process_dispatch o' job' (process_dispatch o job s).1 ≡ (ok tt, (process_dispatch o job s).1)
process_dispatch_once o job s n o' job' found open_ done same =
    let (m, found', settled) = process_dispatch_settles o job n s found open_ in
    skipped o' job' (process_dispatch o job s).1 m
      (subst (λ i. find_by_id i (process_dispatch o job s).1 ≡ some m) (sym same) found')
      (is_done o job n m s (process_dispatch o job s) settled done)
