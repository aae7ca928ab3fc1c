-- ===== src/Notify/Format/Laws.antt =====
-- What the messages show of a payload.
use checkgate.Common.{
  ℕ, zero, suc, ◌≤◌, arith, String, Option, none, some, List, [], ◌∷◌, length, ◌≡◌, refl, ap,
}
use checkgate.Notify.Format.{
  Message, IsJson, with_field, non_empty, take, detail_fields, text_or_null, change_request_payload,
}

module _ {V : Type 0} (json : Message V) where
  pub text_in-text_or_null :
      (laws : IsJson json) (o : Option String) → json.as_str (text_or_null json o) ≡ o
  text_in-text_or_null laws none = laws.as_str_null
  text_in-text_or_null laws (some s) = laws.as_str_text s

  -- A change request's message shows the environment, the flag, who acts and the reason that is given.
  pub detail_fields-change_request_payload :
      (laws : IsJson json) (event env_id flag_key env_name : String) (id : ℕ)
      (actor_email reason : Option String)
      → detail_fields json
          (change_request_payload json event env_id flag_key id actor_email reason)
          env_name
        ≡ ("Environment", env_name)
          ∷ ("Flag", flag_key)
          ∷ with_field actor_email
              (λ actor. ("By", actor))
              (with_field (non_empty reason) (λ r. ("Reason", r)) [])
  unfolding detail_fields change_request_payload
  detail_fields-change_request_payload laws event env_id flag_key env_name id actor_email reason =
      let fields : List (String × V) =
        ("event", json.text event)
        ∷ ("environment_id", json.text env_id)
        ∷ ("flag_key", json.text flag_key)
        ∷ ("change_request_id", json.number id)
        ∷ ("actor_email", text_or_null json actor_email)
        ∷ ("metadata", json.object (("reason", text_or_null json reason) ∷ []))
        ∷ [] in
      rw
        (
          laws.get_object fields "flag_key",
          laws.get_object fields "flag",
          change_request_payload,
          laws.get_object fields "actor_email",
          laws.get_object fields "metadata",
          laws.get_object (("reason", text_or_null json reason) ∷ []) "reason",
          laws.as_str_text flag_key,
          text_in-text_or_null laws actor_email,
          text_in-text_or_null laws reason,
        )
        refl

  -- A message has at most six fields, so the limit of Slack drops none.
  pub length-with_field :
      {A : Type 0} (o : Option A) (field : A → String × String) (rest : List (String × String))
      → length (with_field o field rest) ≤ suc (length rest)
  length-with_field none field rest = omega arith
  length-with_field (some a) field rest = omega arith

  pub take-all : {A : Type 0} (n : ℕ) (xs : List A) → length xs ≤ n → take n xs ≡ xs
  take-all zero [] h = refl
  take-all zero (x ∷ xs) h = ground arith
  take-all (suc n) [] h = refl
  take-all (suc n) (x ∷ xs) h = ap (λ ys. x ∷ ys) (take-all n xs (omega arith))

  pub take-detail_fields :
      (payload : V) (env_name : String)
      → take 10 (detail_fields json payload env_name) ≡ detail_fields json payload env_name
  unfolding detail_fields
  take-detail_fields payload env_name =
      take-all 10 (detail_fields json payload env_name) (grind (arith, length-with_field))
