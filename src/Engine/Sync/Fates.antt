-- ===== src/Engine/Sync/Fates.antt =====
-- How the handler of one event ends, and why.
use attendance.Prelude.{
  ℕ, Bool, true, false, Option, none, some, [], ◌∷◌, if◌then◌else◌, ◌≡◌, refl, ◌⊎◌, inl, inr,
}
use attendance.Prelude.Int.{ℤ}
use attendance.Prelude.Errors.{Error, Result, ok, err}
use attendance.Attendance.Process.{Intent, Ledger, Punch}
use attendance.Engine.Generator.{AttendanceEvent}
use attendance.Engine.Sync.{
  Commit, committed, failed, Turn, at_commit, recover, Persisted, interrupted, routed, Environment,
  intent_of, employee_pk_from_identity, is_stale, conclude, recognize_pk, with_intent, with_pk,
  persist_event, skipped,
}

abbrev reaches_with : Option ℤ → Bool → Option Intent → Bool
reaches_with (some pk) false (some intent) = true
reaches_with _ _ _ = false

module _ (env : Environment) (now max_age : ℕ) where
  -- The event has a transaction of its own: it names an employee, is not stale, and is a check-in
  -- or a check-out.
  abbrev pub reaches_ledger : AttendanceEvent → Bool
  reaches_ledger e =
      reaches_with (employee_pk_from_identity env e.employee_id) (is_stale env now max_age e)
        (intent_of e.event_type)

  -- The event's transaction was committed: the recognition that the event asks for succeeded with
  -- this ledger, and so did the commit after it.
  pub record IsCommitted (turn : Turn) (e : AttendanceEvent) (before after : Ledger) : Type 0 where
    pub pk : ℤ
    pub intent : Intent
    pub punch : Punch
    pub names : employee_pk_from_identity env e.employee_id ≡ some pk
    pub asks : intent_of e.event_type ≡ some intent
    pub recognized : recognize_pk env turn.call pk e intent before ≡ ok (punch, after)
    pub commit : turn.commit ≡ committed

  -- Why an event is done with: it is none for the ledger, which stays, or it was committed.
  abbrev pub IsDone : Turn → AttendanceEvent → Ledger → Ledger → Type 0
  IsDone turn e before after =
      ((reaches_ledger e ≡ false) × (after ≡ before)) ⊎ IsCommitted turn e before after

  -- Why an event is tried again: the recognition that it asks for raised, or its commit failed.
  abbrev pub IsFailed : Turn → AttendanceEvent → Ledger → Type 0
  IsFailed turn e before =
      (pk : ℤ) × (intent : Intent) × (employee_pk_from_identity env e.employee_id ≡ some pk)
      × (intent_of e.event_type ≡ some intent)
      × (((x : Error) × (recognize_pk env turn.call pk e intent before ≡ err x))
          ⊎ (turn.commit ≡ failed))

  -- What one event leaves to retry.
  abbrev pub Fate : Turn → AttendanceEvent → Ledger → Persisted → Type 0
  Fate turn e before (interrupted ledger) =
      (turn.is_cancelled ≡ true) × (ledger.records ≡ before.records)
  Fate turn e before (routed outcome kept ledger) =
      ((kept ≡ []) × IsDone turn e before ledger)
      ⊎ ((kept ≡ e ∷ []) × IsFailed turn e before × (ledger.records ≡ before.records))

  module _ (turn : Turn) (e : AttendanceEvent) (before : Ledger) (pk : ℤ) (intent : Intent)
      (names : employee_pk_from_identity env e.employee_id ≡ some pk)
      (asks : intent_of e.event_type ≡ some intent) where
    cancelled-Fate :
        (b : Bool) (ledger : Ledger) (p : Persisted)
        → turn.is_cancelled ≡ b
        → ledger.records ≡ before.records
        → Fate turn e before p
        → Fate turn e before (if b then interrupted ledger else p)
    cancelled-Fate true ledger p c h k = (c, h)
    cancelled-Fate false ledger p c h k = k

    at_commit-Fate :
        (commit : Commit) (punch : Punch) (after : Ledger)
        → turn.commit ≡ commit
        → recognize_pk env turn.call pk e intent before ≡ ok (punch, after)
        → Fate turn e before (at_commit env commit turn pk e before punch after)
    at_commit-Fate committed punch after h m = inl (
      refl,
      inr (record {
        pk = pk;
        intent = intent;
        punch = punch;
        names = names;
        asks = asks;
        recognized = m;
        commit = h;
      }),
    )
    at_commit-Fate failed punch after h m = inr (refl, (pk, intent, names, asks, inr h), refl)

    conclude-Fate :
        (m : Result (Punch × Ledger))
        → recognize_pk env turn.call pk e intent before ≡ m
        → Fate turn e before (conclude env turn pk e before m)
    conclude-Fate (err x) h =
        cancelled-Fate turn.is_cancelled before (recover env turn pk e before before.marks) refl
          refl (inr (refl, (pk, intent, names, asks, inl (x, h)), refl))
    conclude-Fate (ok (punch, after)) h =
        cancelled-Fate turn.is_cancelled (record { records = before.records; marks = after.marks })
          (at_commit env turn.commit turn pk e before punch after) refl refl
          (at_commit-Fate turn.commit punch after refl h)

  with_intent-Fate :
      (turn : Turn) (e : AttendanceEvent) (ledger : Ledger) (pk : ℤ) (intent : Option Intent)
      → employee_pk_from_identity env e.employee_id ≡ some pk
      → intent_of e.event_type ≡ intent
      → reaches_ledger e ≡ reaches_with (some pk) false intent
      → Fate turn e ledger (with_intent env turn pk e ledger intent)
  with_intent-Fate turn e ledger pk none names asks reach = inl (refl, inl (reach, refl))
  with_intent-Fate turn e ledger pk (some intent) names asks reach =
      conclude-Fate turn e ledger pk intent names asks
        (recognize_pk env turn.call pk e intent ledger) refl

  stale-Fate :
      (b : Bool) (turn : Turn) (e : AttendanceEvent) (ledger : Ledger) (pk : ℤ)
      → employee_pk_from_identity env e.employee_id ≡ some pk
      → reaches_ledger e ≡ reaches_with (some pk) b (intent_of e.event_type)
      → Fate turn e ledger (
          if b
          then routed skipped [] ledger
          else with_intent env turn pk e ledger (intent_of e.event_type))
  stale-Fate true turn e ledger pk names reach = inl (refl, inl (reach, refl))
  stale-Fate false turn e ledger pk names reach =
      with_intent-Fate turn e ledger pk (intent_of e.event_type) names refl reach

  with_pk-Fate :
      (turn : Turn) (e : AttendanceEvent) (ledger : Ledger) (pk : Option ℤ)
      → employee_pk_from_identity env e.employee_id ≡ pk
      → reaches_ledger e ≡ reaches_with pk (is_stale env now max_age e) (intent_of e.event_type)
      → Fate turn e ledger (with_pk env now max_age turn e ledger pk)
  with_pk-Fate turn e ledger none names reach = inl (refl, inl (reach, refl))
  with_pk-Fate turn e ledger (some pk) names reach =
      stale-Fate (is_stale env now max_age e) turn e ledger pk names reach

  pub persist_event-Fate :
      (turn : Turn) (e : AttendanceEvent) (ledger : Ledger)
      → Fate turn e ledger (persist_event env now max_age turn e ledger)
  unfolding persist_event
  persist_event-Fate turn e ledger =
      with_pk-Fate turn e ledger (employee_pk_from_identity env e.employee_id) refl refl
