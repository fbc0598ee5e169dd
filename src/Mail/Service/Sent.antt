-- ===== src/Mail/Service/Sent.antt =====
-- One send against the states of the entity: the service writes columns, the entity has methods.
use mathlib.Core.Option
use nest_rest_backend_templa.Prelude.{
  ◌+◌, String, ◌≡◌, refl, ap, subst, ◌∙◌, ◌⊎◌, inl, inr, some, Bool, true, false, ◌&&◌, [], ◌∷◌,
  ◌++◌, ◌==◌, string_eq, arith, Bool-cases, Option-cases, present,
}
use nest_rest_backend_templa.Exec.{Result, ok, throw, Thrown, error, message_of}
use nest_rest_backend_templa.Sql.{update_where, join_first, touch}
use nest_rest_backend_templa.Sql.Laws.{join_first-update, join_first-holds, touch_left}
use nest_rest_backend_templa.Mail.Store.{
  MailStore, MailRow, TemplateRow, Mail, Delivered, MailUpdate, mail_of, live_mail_is, mail_row_is,
  has_template, find_mail_by_id, find_template_by_name, with_update, update_mail, not_deleted_at,
  mark_as_sent, mark_as_failed,
}
use nest_rest_backend_templa.Mail.Service.{
  SendOutside, content_of, final_subject, sent_update, failed_update, deliver_mail, try_send,
  caught, send_mail,
}

Result-cases :
    (r : Result String) → ((text : String) × (r ≡ ok text)) ⊎ ((t : Thrown) × (r ≡ throw t))
Result-cases (ok text) = inl (text, refl)
Result-cases (throw t) = inr (t, refl)

and_left : (a b : Bool) → (a && b) ≡ true → a ≡ true
and_left true b h = refl
and_left false b h = h

module _ (id : String) (update : MailUpdate) (s : MailStore) (row : MailRow)
    (template : TemplateRow)
    (found : join_first (live_mail_is id) has_template s.mails s.templates
      ≡ some (row, template)) where
  abbrev updated : MailStore
  updated = record s { mails = update_where (mail_row_is id) (with_update update) s.mails }

  keeps_template :
      (r : MailRow) → has_template (touch (mail_row_is id) (with_update update) r) ≡ has_template r
  keeps_template r = elim (Bool-cases (r.id == id)) [
    | inl yep ↦ rw yep refl
    | inr nope ↦ rw nope refl
  ]

  touched :
      touch_left (mail_row_is id) (with_update update) (row, template)
      ≡ (with_update update row, template)
  touched =
      rw
        (and_left (row.id == id) (not_deleted_at row.deleted_at)
          (join_first-holds has_template s.templates (live_mail_is id) s.mails row template found))
        refl

  find-updated : find_mail_by_id id updated ≡ some (mail_of (with_update update row, template))
  find-updated = ap (Option.map mail_of) (
      join_first-update has_template s.templates (live_mail_is id) (mail_row_is id)
        (with_update update) s.mails (λ r. ground arith) (λ r. keeps_template r)
      ∙ ap (Option.map (touch_left (mail_row_is id) (with_update update))) found
      ∙ ap some touched)

  update_mail-eq :
      update_mail id update s ≡ (ok (mail_of (with_update update row, template)), updated)
  unfolding update_mail
  update_mail-eq = rw find-updated refl

module _ (o : SendOutside) (id to subject template context : String) (s : MailStore) where
  abbrev pub one_more : Delivered → MailStore
  one_more mail = record s { delivered = s.delivered ++ mail ∷ [] }

  -- The mailer was called once and took the mail, or something threw and nothing was sent.
  abbrev Outcome : Type 0
  Outcome =
      ((mail : Delivered) × (mail.to ≡ to)
        × (deliver_mail o id to subject template context s ≡ (ok tt, one_more mail)))
      ⊎ ((t : Thrown) × (deliver_mail o id to subject template context s ≡ (throw t, s)))

  deliver_mail-Outcome : Outcome
  unfolding deliver_mail
  deliver_mail-Outcome = elim (Option-cases (find_template_by_name template s)) [
    | inl missing ↦ inr (error "mail.templateNotFound", simp (missing))
    | inr (entity, there) ↦ elim (Bool-cases entity.is_active) [
      | inr inactive ↦ inr (error "mail.templateInactive", simp (there, inactive))
      | inl active ↦ elim (Result-cases (content_of o template (present entity.content))) [
        | inr (t, unread) ↦ inr (t, simp (there, active, unread))
        | inl (content, read) ↦ elim (Result-cases (o.render content context)) [
          | inr (t, broken) ↦ inr (t, simp (there, active, read, broken))
          | inl (html, rendered) ↦ elim (Option-cases o.smtp_error) [
            | inr (message, refused) ↦
                inr (error message, simp (there, active, read, rendered, refused))
            | inl accepted ↦ inl (
              record { to = to; subject = final_subject subject entity.subject; html = html },
              refl,
              simp (there, active, read, rendered, accepted),
            )
          ]
        ]
      ]
    ]
  ]

  module _ (row : MailRow) (tmpl : TemplateRow)
      (found : join_first (live_mail_is id) has_template s.mails s.templates
        ≡ some (row, tmpl)) where
    send_accepted :
        (mail : Delivered)
        → deliver_mail o id to subject template context s ≡ (ok tt, one_more mail)
        → send_mail o id to subject template context s
          ≡ (ok tt, updated id (sent_update o.sent_at) (one_more mail) row tmpl found)
    unfolding send_mail try_send caught
    send_accepted mail ran =
        simp (ran, update_mail-eq id (sent_update o.sent_at) (one_more mail) row tmpl found)

    send_refused :
        (t : Thrown)
        → deliver_mail o id to subject template context s ≡ (throw t, s)
        → send_mail o id to subject template context s ≡ (
          throw t,
          updated id
              (failed_update ((mail_of (row, tmpl)).attempts + 1) (message_of t))
              s
              row
              tmpl
              found,
        )
    unfolding send_mail try_send caught
    send_refused t ran = simp (
      ran,
      found,
      update_mail-eq id (failed_update ((mail_of (row, tmpl)).attempts + 1) (message_of t)) s row
          tmpl found,
    )

  -- The mailer took one mail and the entity is marked as sent, or what was thrown comes out,
  -- nothing was sent and the entity is marked as failed.
  abbrev pub SentOrFailed : Result (Unit {0}) × MailStore → Mail → Type 0
  SentOrFailed out mail =
      ((sent : Delivered) × (sent.to ≡ to)
        × (out.0 ≡ ok tt)
        × (find_mail_by_id id out.1 ≡ some (mark_as_sent o.sent_at mail))
        × (out.1.delivered ≡ s.delivered ++ sent ∷ []))
      ⊎ ((t : Thrown) × (out.0 ≡ throw t)
          × (find_mail_by_id id out.1 ≡ some (mark_as_failed (message_of t) mail))
          × (out.1.delivered ≡ s.delivered))

  row_refines :
      (row : MailRow) (tmpl : TemplateRow)
      → join_first (live_mail_is id) has_template s.mails s.templates ≡ some (row, tmpl)
      → SentOrFailed (send_mail o id to subject template context s) (mail_of (row, tmpl))
  row_refines row tmpl found = elim deliver_mail-Outcome [
    | inl (mail, addressed, ran) ↦ rw (send_accepted row tmpl found mail ran) (
        inl (
          mail,
          addressed,
          refl,
          find-updated id (sent_update o.sent_at) (one_more mail) row tmpl found,
          refl,
        ))
    | inr (t, ran) ↦ rw (send_refused row tmpl found t ran) (
        inr (
          t,
          refl,
          find-updated id (failed_update ((mail_of (row, tmpl)).attempts + 1) (message_of t)) s row
              tmpl found,
          refl,
        ))
  ]

  -- A send of a mail that is there and not deleted does to it what one of two methods of the
  -- entity does: either the mailer took exactly one mail, to the address given, the send succeeds
  -- and the mail is what `markAsSent` makes of it; or something threw, nothing was sent, the same
  -- is thrown on and the mail is what `markAsFailed` makes of it with the message of what was
  -- thrown.
  pub send_mail_refines :
      (mail : Mail)
      → find_mail_by_id id s ≡ some mail
      → SentOrFailed (send_mail o id to subject template context s) mail
  send_mail_refines mail e =
      elim (Option-cases (join_first (live_mail_is id) has_template s.mails s.templates)) [
        | inl missing ↦ absurd (ground (arith, rw missing at e))
        | inr ((row, tmpl), found) ↦
            subst (SentOrFailed (send_mail o id to subject template context s))
              {x = mail_of (row, tmpl)} {y = mail} (cc (rw found at e)) (row_refines row tmpl found)
      ]
