-- ===== src/Notify/Deliver/Laws.antt =====
-- What the deliveries of server/src/integrations.rs and server/src/webhook_fire.rs write to their log.
use mathlib.Core.Path.{subst}
use checkgate.Common.{
  ℕ, ◌≤◌, ◌≡◌, ◌⊎◌, refl, sym, ◌∙◌, inl, inr, arith, String, none, some, List, [], ◌∷◌, Bool-cases,
  Option-cases, false-absurd,
}
use checkgate.Notify.Format.{Message}
use checkgate.Notify.Deliver.{
  Delivery, Reply, responded, unreachable, IntegrationRow, log_delivery, answered, unanswered,
  attempts_from, deliver_with_retry, event_or_unknown, Network, is_subscribed, message_for,
  deliver_one, deliver_to_env,
}
use checkgate.Notify.Deliver.Receivers.{
  start, next, IsReport, first_answer, last_error, Logged, no_more, sent, skipped,
  is_subscribed_iff, IsWritten-message_for, message_for-IsWritten,
}
use checkgate.Status.{none-absurd}
use checkgate.Notify.Deliver.Logs.{IsBounded, log_delivery-IsBounded}

Reply-cases :
    (reply : Reply)
    → ((status : ℕ) × (body : String) × (reply ≡ responded status body))
      ⊎ ((e : String) × (reply ≡ unreachable e))
Reply-cases (responded status body) = inl (status, body, refl)
Reply-cases (unreachable e) = inr (e, refl)

module _ {V : Type 0} where
  pub deliver_with_retry_lem :
      (replies : ℕ → Reply) (hook_id : ℕ) (event : String) (payload : V) (log : List (Delivery V))
      → (row : Delivery V) × ((deliver_with_retry replies hook_id event payload log).log
          ≡ log_delivery row log)
        × (row.hook_id ≡ hook_id)
        × (row.event ≡ event)
        × (row.payload ≡ payload)
        × ((deliver_with_retry replies hook_id event payload log).posts ≤ 3)
        × ((deliver_with_retry replies hook_id event payload log).slept ≤ 6)
        × IsReport replies row (deliver_with_retry replies hook_id event payload log).posts
  unfolding deliver_with_retry attempts_from
  deliver_with_retry_lem replies hook_id event payload log = elim (Reply-cases (replies 0)) [
    | inl (status, body, a) ↦
        rw (a, deliver_with_retry)
          (
            answered hook_id event payload status body,
            refl,
            refl,
            refl,
            refl,
            omega arith,
            omega arith,
            first_answer 0 status body refl start a refl refl refl,
          )
    | inr (e, a) ↦ elim (Reply-cases (replies 1)) [
      | inl (status, body, b) ↦
          rw (a, deliver_with_retry, b)
            (
              answered hook_id event payload status body,
              refl,
              refl,
              refl,
              refl,
              omega arith,
              omega arith,
              first_answer 1 status body refl (next e start a) b refl refl refl,
            )
      | inr (f, b) ↦ elim (Reply-cases (replies 2)) [
        | inl (status, body, c) ↦
            rw (a, deliver_with_retry, b, c)
              (
                answered hook_id event payload status body,
                refl,
                refl,
                refl,
                refl,
                omega arith,
                omega arith,
                first_answer 2 status body refl (next f (next e start a) b) c refl refl refl,
              )
        | inr (g, c) ↦
            rw (a, deliver_with_retry, b, c)
              (
                unanswered hook_id event payload g,
                refl,
                refl,
                refl,
                refl,
                omega arith,
                omega arith,
                last_error g refl (next f (next e start a) b) c refl refl refl,
              )
      ]
    ]
  ]

module _ {V : Type 0} (json : Message V) where
  -- the rows of the log, one after another
  unfoldable pub log_all : List (Delivery V) → List (Delivery V) → List (Delivery V)
  unfolding log_delivery
  log_all [] log = log
  log_all (row ∷ rows) log = log_all rows (log_delivery row log)

  deliver_one-none :
      (network : Network json) (payload : V) (env_name : String) (row : IntegrationRow)
      (log : List (Delivery V))
      → message_for json payload env_name row ≡ none
      → deliver_one json network payload env_name row log ≡ log
  unfolding deliver_one
  deliver_one-none network payload env_name row log n = rw (n, deliver_one) refl

  deliver_one-some :
      (network : Network json) (payload : V) (env_name : String) (row : IntegrationRow)
      (log : List (Delivery V)) (message : V) (body : List ℕ)
      → message_for json payload env_name row ≡ some (message, body)
      → (delivery : Delivery V) × (posts : ℕ) × (deliver_one json network payload env_name row log
          ≡ log_delivery delivery log)
        × (delivery.hook_id ≡ row.id)
        × (delivery.event ≡ event_or_unknown json payload)
        × (delivery.payload ≡ message)
        × IsReport
            (network (record { url = row.webhook_url; signature = none; body = body }))
            delivery
            posts
  unfolding deliver_one
  deliver_one-some network payload env_name row log message body n =
      let replies = network (record { url = row.webhook_url; signature = none; body = body }) in
      let event = event_or_unknown json payload in
      let (delivery, same, id, is_event, is_message, posts, slept, report) =
        deliver_with_retry_lem replies row.id event message log in
      (
        delivery,
        (deliver_with_retry replies row.id event message log).posts,
        rw (n, deliver_one) same,
        id,
        is_event,
        is_message,
        report,
      )

  pub deliver_to_env_lem :
      (network : Network json) (payload : V) (env_id env_name : String) (rows : List IntegrationRow)
      (log : List (Delivery V))
      → (logged : List (Delivery V)) × (deliver_to_env json network payload env_id env_name rows log
          ≡ log_all logged log)
        × Logged json payload env_id env_name network rows logged
  unfolding deliver_to_env deliver_one log_all
  deliver_to_env_lem network payload env_id env_name [] log = ([], refl, no_more)
  deliver_to_env_lem network payload env_id env_name (row ∷ rows) log =
      let iff = is_subscribed_iff json payload env_id env_name row in
      elim (Bool-cases (is_subscribed json env_id (event_or_unknown json payload) row)) [
        | inr e ↦
            let (logged, same, all) = deliver_to_env_lem network payload env_id env_name rows log in
            rw (e, deliver_to_env)
              (
                logged,
                same,
                skipped (λ m b r. false-absurd (sym e ∙ iff.1 (r.here, r.is_on, r.subscribes))) all,
              )
        | inl e ↦ elim (Option-cases (message_for json payload env_name row)) [
          | inl n ↦
              let (logged, same, all) =
                deliver_to_env_lem network payload env_id env_name rows log in
              rw (e, deliver_to_env, deliver_one-none network payload env_name row log n)
                (
                  logged,
                  same,
                  skipped
                      (λ m b r. none-absurd (
                        sym n
                        ∙ message_for-IsWritten json payload env_id env_name row m b r.written))
                      all,
                )
          | inr ((message, body), n) ↦
              let (delivery, posts, one, id, event, is_message, report) =
                deliver_one-some network payload env_name row log message body n in
              let (logged, same, all) =
                deliver_to_env_lem network payload env_id env_name rows
                  (log_delivery delivery log) in
              let (here, is_on, subscribes) = iff.0 e in
              rw (e, deliver_to_env, one)
                (
                  delivery ∷ logged,
                  same,
                  sent message body delivery posts
                      (record {
                        here = here;
                        is_on = is_on;
                        subscribes = subscribes;
                        written =
                            IsWritten-message_for json payload env_id env_name row message body n;
                      })
                      id event is_message report all,
                )
        ]
      ]

  pub log_all-IsBounded :
      (rows log : List (Delivery V)) → IsBounded log → IsBounded (log_all rows log)
  unfolding log_all
  log_all-IsBounded [] log h = h
  log_all-IsBounded (row ∷ rows) log h =
      log_all-IsBounded rows (log_delivery row log) (log_delivery-IsBounded row log h)

  -- A log that has at most 200 rows of each hook still has after an event.
  pub deliver_to_env-IsBounded :
      (network : Network json) (payload : V) (env_id env_name : String) (rows : List IntegrationRow)
      (log : List (Delivery V))
      → IsBounded log
      → IsBounded (deliver_to_env json network payload env_id env_name rows log)
  deliver_to_env-IsBounded network payload env_id env_name rows log h =
      let (logged, same, all) = deliver_to_env_lem network payload env_id env_name rows log in
      subst IsBounded (sym same) (log_all-IsBounded logged log h)
