-- ===== src/Mail/Service/Queue.antt =====
-- The batches and the chunks of the queue against one loop over the mails.
use nest_rest_backend_templa.Prelude.{
  ℕ, zero, suc, ◌+◌, ◌≤◌, ◌<◌, ◌≡◌, refl, ap, sym, ◌∙◌, String, some, true, false, leb, List, [],
  ◌∷◌, ◌++◌, length, take, drop, take-append-drop, drop-add, drop-all, arith, Bool-cases, inl, inr,
}
use nest_rest_backend_templa.Exec.{Result, ok}
use nest_rest_backend_templa.Mail.Store.{MailStore, Mail, pending, find_mails_by_status}
use nest_rest_backend_templa.Mail.Service.{
  SendOutside, chunks_from, send_settled, send_all, send_chunks, send_batches, process_queue,
}

abbrev pub concat {ℓ} : {A : Type ℓ} → List (List A) → List A
concat [] = []
concat (xs ∷ xss) = xs ++ concat xss

leb-le : (m n : ℕ) → leb m n ≡ true → m ≤ n
leb-le m n h = ground arith

gt_of_leb : (m n : ℕ) → leb m n ≡ false → n < m
gt_of_leb m n h = ground arith

module _ {A : Type 0} (array : List A) (size : ℕ) (positive : 0 < size) where
  chunks_from-covers :
      (fuel i : ℕ)
      → 0 < fuel
      → length array < i + fuel
      → (chunks : List (List A)) × (chunks_from array size fuel i ≡ some chunks)
        × (concat chunks ≡ drop i array)
  unfolding chunks_from
  chunks_from-covers zero i p h = elim p [ ]
  chunks_from-covers (suc fuel) i p h = elim (Bool-cases (leb (length array) i)) [
    | inl done ↦ ([], rw done refl, sym (drop-all i array (leb-le _ _ done)))
    | inr more ↦
        let rest =
          chunks_from-covers fuel (i + size) (omega (arith, gt_of_leb _ _ more))
            (omega (arith, gt_of_leb _ _ more)) in
        (
          take size (drop i array) ∷ rest.0,
          rw (more, rest.1) refl,
          ap (λ (t : List A). take size (drop i array) ++ t) (rest.2 ∙ drop-add i size array)
              ∙ take-append-drop size (drop i array),
        )
  ]

module _ (o : String → SendOutside) where
  send_all_settles : (mails : List Mail) (s : MailStore) → (send_all o mails s).0 ≡ ok tt
  unfolding send_all
  send_all_settles [] s = refl
  send_all_settles (mail ∷ mails) s = send_all_settles mails (send_settled o mail s).1

  send_all-append :
      (xs ys : List Mail) (s : MailStore)
      → send_all o (xs ++ ys) s ≡ send_all o ys (send_all o xs s).1
  unfolding send_all
  send_all-append [] ys s = refl
  send_all-append (mail ∷ xs) ys s = send_all-append xs ys (send_settled o mail s).1

  send_nothing : (s : MailStore) → (ok tt, s) ≡ send_all o [] s
  unfolding send_all
  send_nothing s = refl

  send_chunks-eq :
      (chunks : List (List Mail)) (s : MailStore)
      → send_chunks o chunks s ≡ send_all o (concat chunks) s
  unfolding send_chunks
  send_chunks-eq [] s = send_nothing s
  send_chunks-eq (chunk ∷ chunks) s =
      rw (send_all_settles chunk s) (
        send_chunks-eq chunks (send_all o chunk s).1
        ∙ sym (send_all-append chunk (concat chunks) s))

  rest_sends :
      (n : ℕ) (mails : List Mail) (i : ℕ) (s : MailStore)
      → send_all o (drop (i + n) mails) (send_all o (take n (drop i mails)) s).1
        ≡ send_all o (drop i mails) s
  rest_sends n mails i s = rw (drop-add i n mails) (
      sym (send_all-append (take n (drop i mails)) (drop n (drop i mails)) s)
      ∙ ap (λ (all : List Mail). send_all o all s) (take-append-drop n (drop i mails)))

  module _ (concurrency batch_size : ℕ) (some_at_once : 0 < concurrency)
      (some_each : 0 < batch_size) where
    send_batches-eq :
        (mails : List Mail) (fuel i : ℕ) (s : MailStore)
        → 0 < fuel
        → length mails < i + fuel
        → send_batches o concurrency batch_size mails fuel i s ≡ some (send_all o (drop i mails) s)
    unfolding send_batches
    send_batches-eq mails zero i s p h = elim p [ ]
    send_batches-eq mails (suc fuel) i s p h = elim (Bool-cases (leb (length mails) i)) [
      | inl done ↦ rw (done, drop-all i mails (leb-le _ _ done)) (ap some (send_nothing s))
      | inr more ↦
          let batch =
            chunks_from-covers (take batch_size (drop i mails)) concurrency some_at_once
              (suc (length (take batch_size (drop i mails)))) 0 (omega arith) (omega arith) in
          rw (more, batch.1)
            (send_batches-eq mails fuel (i + batch_size) (send_chunks o batch.0 s).1
                (omega (arith, gt_of_leb _ _ more)) (omega (arith, gt_of_leb _ _ more))
              ∙ ap some (
                  ap
                    (λ (x : Result (Unit {0}) × MailStore).
                      send_all o (drop (i + batch_size) mails) x.1)
                    (send_chunks-eq batch.0 s)
                  ∙ ap
                      (λ (sent : List Mail).
                        send_all o (drop (i + batch_size) mails) (send_all o sent s).1)
                      batch.2
                  ∙ rest_sends batch_size mails i s))
    ]

    -- With at least one mail at once and in each batch, the processing of the queue ends, and it
    -- does what one loop over all pending mails does that sends each of them in turn: the batches
    -- and their chunks leave none out and take none twice.
    pub process_queue-eq :
        (s : MailStore)
        → process_queue o concurrency batch_size s
          ≡ some (send_all o (find_mails_by_status pending s) s)
    unfolding process_queue
    process_queue-eq s =
        send_batches-eq (find_mails_by_status pending s)
          (suc (length (find_mails_by_status pending s))) 0 s (omega arith) (omega arith)
