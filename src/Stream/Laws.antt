-- ===== src/Stream/Laws.antt =====
-- The bootstrap of the stream beside the snapshot that a client polls.
use mathlib.Core.Path.{subst}
use checkgate.Common.{
  ℕ, ◌+◌, ◌≡◌, refl, ap, sym, ◌∙◌, inl, inr, arith, String, Option, none, some, List, [], ◌∷◌, ◌++◌,
  map, length, All,
}
use checkgate.Status.{StatusCode, ok, err, Result-cases, ok_injective, err-absurd}
use checkgate.Auth.{AuthContext}
use checkgate.Server.{FlagJson}
use checkgate.Stream.Rows.{HasPrimaryKey, flag_rows-HaveDistinctKeys, tombstones_of-OtherKeys}
use checkgate.Stream.Held.{
  held, IsKeyed, flag_rows-IsKeyed, held-upserts, length-upserts, held-deletes, tombstones-Lacks,
  All-Lacks-nil,
}
use checkgate.Stream.{
  Update, Received, SseEvent, connected, update, ready, Snapshot, key_environment, env_ids,
  flag_rows, tombstones_of, upserts, deletes, bootstrap, live, sse_handler, flags_of,
  flags_snapshot_handler,
}

module _ {V : Type 0} where
  -- The number that it is told.
  unfoldable pub ready_count : List (SseEvent V) → Option ℕ
  ready_count [] = none
  ready_count (ready n ∷ events) = some n
  ready_count (_ ∷ events) = ready_count events

module _ {V : Type 0} (json : FlagJson V) where
  ready_count-updates :
      (us : List (Update V)) (rest : List (SseEvent V))
      → ready_count (map (λ u. update u) us ++ rest) ≡ ready_count rest
  unfolding ready_count
  ready_count-updates [] rest = refl
  ready_count-updates (u ∷ us) rest = ready_count-updates us rest

  env_ids-key :
      (ctx : AuthContext) (t : Snapshot V) (env_id : String)
      → key_environment ctx.sdk_key ≡ some env_id
      → env_ids ctx t ≡ env_id ∷ []
  unfolding env_ids
  env_ids-key ctx t env_id k = rw (k, env_ids) refl

  bootstrap-err :
      (t : Snapshot V) (env_id : String) (s : StatusCode)
      → upserts json t.db env_id (flag_rows t env_id) ≡ err s
      → bootstrap json t (env_id ∷ []) ≡ err s
  unfolding bootstrap
  bootstrap-err t env_id s e = rw (e, bootstrap) refl

  bootstrap-ok :
      (t : Snapshot V) (env_id : String) (flags : List (Update V))
      → upserts json t.db env_id (flag_rows t env_id) ≡ ok flags
      → bootstrap json t (env_id ∷ [])
        ≡ ok (flags ++ (deletes json env_id (tombstones_of t env_id) ++ []), length flags + 0)
  unfolding bootstrap
  bootstrap-ok t env_id flags e = rw (e, bootstrap) refl

  -- the events of a client of one environment
  abbrev events_of :
      Snapshot V → String → List (Update V) → List (Received V) → Option String → List (SseEvent V)
  events_of t env_id flags received key =
      connected key
      ∷ (map (λ u. update u) (flags ++ (deletes json env_id (tombstones_of t env_id) ++ []))
          ++ (ready (length flags + 0) ∷ live json (env_id ∷ []) received))

  sent-one :
      (t : Snapshot V) (env_id : String) (flags : List (Update V)) (received : List (Received V))
      (key : Option String)
      → HasPrimaryKey t.db.flags
      → All (IsKeyed json) t.db.flags
      → upserts json t.db env_id (flag_rows t env_id) ≡ ok flags
      → (held [] (events_of t env_id flags received key)
          ≡ flags_of json t.db env_id (flag_rows t env_id))
        × (ready_count (events_of t env_id flags received key)
            ≡ some (length (held [] (events_of t env_id flags received key))))
  unfolding held ready_count
  sent-one t env_id flags received key primary keyed e =
      let rows = flag_rows t env_id in
      let ks = flag_rows-IsKeyed json t env_id keyed in
      let deleted_too = deletes json env_id (tombstones_of t env_id) ++ [] in
      let after = live json (env_id ∷ []) received in
      let same : held [] (events_of t env_id flags received key)
          ≡ flags_of json t.db env_id (flag_rows t env_id) =
        held-upserts json t.db env_id rows flags deleted_too (ready (length flags + 0) ∷ after) []
          (flag_rows-HaveDistinctKeys t env_id primary) ks (All-Lacks-nil json rows) e
        ∙ held-deletes json env_id (tombstones_of t env_id) (length flags + 0) after
            (flags_of json t.db env_id rows)
            (tombstones-Lacks json t.db env_id rows (tombstones_of t env_id) ks
              (tombstones_of-OtherKeys t env_id)) in
      let number : length flags + 0 ≡ length (flags_of json t.db env_id rows) =
        omega (arith, length-upserts json t.db env_id rows flags e) in
      (
        same,
        ready_count-updates (flags ++ deleted_too) (ready (length flags + 0) ∷ after)
            ∙ ap some (number ∙ ap length (sym same)),
      )

  -- A client with the SDK key of an environment starts with no flags and applies each update that it is sent.
  -- When it is told that it is ready, it holds exactly the flags of the snapshot that it would have polled at
  -- the same state of the tables, in their order, and the number that it is told is theirs. The table of flags
  -- has at most one row of an environment and a key, and a stored flag has the key of its row.
  pub sse_handler-snapshot :
      (ctx : AuthContext) (t : Snapshot V) (received : List (Received V)) (env_id : String)
      (events : List (SseEvent V))
      → HasPrimaryKey t.db.flags
      → All (IsKeyed json) t.db.flags
      → key_environment ctx.sdk_key ≡ some env_id
      → sse_handler json ctx t received ≡ ok events
      → (flags_snapshot_handler json ctx t ≡ ok (env_id, held [] events))
        × (ready_count events ≡ some (length (held [] events)))
  unfolding sse_handler flags_snapshot_handler held
  sse_handler-snapshot ctx t received env_id events primary keyed k h =
      elim (Result-cases (upserts json t.db env_id (flag_rows t env_id))) [
        | inl (s, e) ↦
            err-absurd
              (rw (env_ids-key ctx t env_id k, sse_handler, bootstrap-err t env_id s e) at h)
        | inr (flags, e) ↦
            let (same, count) =
              sent-one t env_id flags received (key_environment ctx.sdk_key) primary keyed e in
            subst
              (λ es.
                (flags_snapshot_handler json ctx t ≡ ok (env_id, held [] es))
                × (ready_count es ≡ some (length (held [] es))))
              (ok_injective
                (rw (env_ids-key ctx t env_id k, sse_handler, bootstrap-ok t env_id flags e) at h))
              (rw (k, flags_snapshot_handler) (ap (λ fs. ok (env_id, fs)) (sym same)), count)
      ]
