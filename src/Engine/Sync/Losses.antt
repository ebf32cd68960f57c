-- ===== src/Engine/Sync/Losses.antt =====
-- What becomes of the events of a drain when transactions fail and the task is cancelled.
use attendance.Prelude.{
  ℕ, suc, Bool, true, false, none, List, [], ◌∷◌, ◌++◌, if◌then◌else◌, ◌≡◌, refl, ◌⊎◌, inl, inr, ap,
  ◌∙◌, sym,
}
use mathlib.Core.Path.{subst}
use mathlib.Core.List.{append-nil, append_assoc}
use attendance.Attendance.Process.{Ledger}
use attendance.Engine.Generator.{AttendanceEvent, AttendanceGenerator, drain_events}
use attendance.Engine.Sync.{
  Turn, Persisted, interrupted, routed, Environment, persist_event, Drained, persist_all, count_up,
  drain_once,
}
use attendance.Engine.Sync.Fates.{IsDone, IsFailed, Fate, persist_event-Fate}

module _ (env : Environment) (now max_age : ℕ) where
  module _ (turns : ℕ → Turn) (opened : Bool) where
    -- How a batch that starts at place `i` with one ledger splits into the events that are done
    -- with and those to retry, in order, and the ledger that is left.
    pub data Parted
        : ℕ → Ledger → List AttendanceEvent → List AttendanceEvent → Ledger → Type 0 where
      unopened :
          {i : ℕ} {before : Ledger} {es : List AttendanceEvent}
          → opened ≡ false
          → Parted i before es es before
      finished : {i : ℕ} {before : Ledger} → Parted i before [] [] before
      stopped :
          {i : ℕ} {before after : Ledger} {e : AttendanceEvent} {es : List AttendanceEvent}
          → (turns i).is_cancelled ≡ true
          → after.records ≡ before.records
          → Parted i before (e ∷ es) (e ∷ es) after
      gone :
          {i : ℕ} {e : AttendanceEvent} {es rs : List AttendanceEvent} {before next after : Ledger}
          → IsDone env now max_age (turns i) e before next
          → Parted (suc i) next es rs after
          → Parted i before (e ∷ es) rs after
      again :
          {i : ℕ} {e : AttendanceEvent} {es rs : List AttendanceEvent} {before next after : Ledger}
          → IsFailed env now max_age (turns i) e before
          → next.records ≡ before.records
          → Parted (suc i) next es rs after
          → Parted i before (e ∷ es) (e ∷ rs) after

    abbrev Split : ℕ → Ledger → List AttendanceEvent → List AttendanceEvent → Drained → Type 0
    Split i before es retry d =
        (rs : List AttendanceEvent) × (d.retry ≡ retry ++ rs) × Parted i before es rs d.ledger

    later-Split :
        (i : ℕ) (before next : Ledger) (e : AttendanceEvent) (es retry kept : List AttendanceEvent)
        (d : Drained)
        → ((kept ≡ []) × IsDone env now max_age (turns i) e before next)
          ⊎ ((kept ≡ e ∷ [])
              × IsFailed env now max_age (turns i) e before
              × (next.records ≡ before.records))
        → Split (suc i) next es (retry ++ kept) d
        → Split i before (e ∷ es) retry d
    later-Split i before next e es retry kept d (inl (q, h)) (rs, eq, p) =
        (rs, eq ∙ ap (λ k. retry ++ k ++ rs) q ∙ ap (λ r. r ++ rs) (append-nil retry), gone h p)
    later-Split i before next e es retry kept d (inr (q, h, same)) (rs, eq, p) =
        (e ∷ rs, eq ∙ ap (λ k. retry ++ k ++ rs) q ∙ append_assoc retry (e ∷ []) rs, again h same p)

    step-Split :
        (i : ℕ) (before : Ledger) (e : AttendanceEvent) (es : List AttendanceEvent) (n : ℕ)
        (retry : List AttendanceEvent) (p : Persisted)
        → Fate env now max_age (turns i) e before p
        → ((n' : ℕ) (retry' : List AttendanceEvent) (ledger' : Ledger)
            → Split
                (suc i)
                ledger'
                es
                retry'
                (persist_all env now max_age turns (suc i) es n' retry' ledger'))
        → Split i before (e ∷ es) retry (elim p [
          | interrupted ledger' ↦ record { ledger = ledger'; retry = retry ++ e ∷ es; count = none }
          | routed outcome kept ledger' ↦
              persist_all env now max_age turns
                (suc i)
                es
                (count_up outcome n)
                (retry ++ kept)
                ledger'
        ])
    step-Split i before e es n retry (interrupted ledger) (c, f) next = (e ∷ es, refl, stopped c f)
    step-Split i before e es n retry (routed outcome kept ledger) f next =
        later-Split i before ledger e es retry kept
          (persist_all env now max_age turns (suc i) es (count_up outcome n) (retry ++ kept) ledger)
          f (next (count_up outcome n) (retry ++ kept) ledger)

    persist_all-Split :
        (i : ℕ) (es : List AttendanceEvent) (n : ℕ) (retry : List AttendanceEvent) (ledger : Ledger)
        → Split i ledger es retry (persist_all env now max_age turns i es n retry ledger)
    unfolding persist_all
    persist_all-Split i [] n retry ledger = ([], sym (append-nil retry), finished)
    persist_all-Split i (e ∷ es) n retry ledger =
        step-Split i ledger e es n retry (persist_event env now max_age (turns i) e ledger)
          (persist_event-Fate env now max_age (turns i) e ledger) (persist_all-Split (suc i) es)

    opened-Parted :
        (b : Bool) (es : List AttendanceEvent) (ledger : Ledger)
        → opened ≡ b
        → let session : Drained =
            if b
            then persist_all env now max_age turns 0 es 0 [] ledger
            else record { ledger = ledger; retry = es; count = none } in
          Parted 0 ledger es session.retry session.ledger
    opened-Parted false es ledger shut = unopened shut
    opened-Parted true es ledger o =
        let (rs, e, p) = persist_all-Split 0 es 0 [] ledger in
        let d = persist_all env now max_age turns 0 es 0 [] ledger in
        subst (λ rs. Parted 0 ledger es rs d.ledger) (sym e) p

    -- A drain loses no event, whatever fails: of the events to retry and the queue, in their
    -- order, each is in the new retry list, or its recognition succeeded and its transaction was
    -- committed, or it is none that the ledger takes. An event is kept only if its recognition
    -- raised, if its commit failed, if the task was cancelled at it or before it, or if the
    -- session could not be opened. The records that are left are those of the committed events,
    -- one after the other: an event that is kept, and one that the ledger does not take, changes
    -- no record. The queue is empty afterwards.
    pub drain_once-Parted :
        (retry : List AttendanceEvent) (g : AttendanceGenerator) (ledger : Ledger)
        → let (drained, g') = drain_once env now max_age turns opened retry g ledger in
          Parted 0 ledger (retry ++ g.event_queue) drained.retry drained.ledger
          × (g'.event_queue ≡ [])
    unfolding drain_once drain_events
    drain_once-Parted retry g ledger =
        (opened-Parted opened (retry ++ g.event_queue) ledger refl, refl)
