-- ===== src/Engine/Verifier/Levels.antt =====
-- The level that the rules give, against the table that the module's comment states.
use attendance.Prelude.{
  Bool, true, false, not, ◌&&◌, ◌||◌, Option, none, some, String, ◌≡◌, refl, if◌then◌else◌,
}
use attendance.Engine.Verifier.{
  VerificationLevel, unverified, basic, verified, high_security, maximum_security, SearchResult,
  VerificationContext, VerificationResult, face_matched, liveness_passed, rfid_matched,
  rfid_face_consistent, rules, verify,
}

-- What they pass with.
abbrev pub grade : Bool → Bool → Bool → VerificationLevel
grade true true live = maximum_security
grade true false live = high_security
grade false location true = verified
grade false location false = basic

module _ {C : Type 0} where
  -- Who may pass: an accepted face with a card of the same person, or, without a card, with a
  -- liveness that passed or is not asked for.
  abbrev pub passes : Bool → VerificationContext C → Bool
  passes require context =
      face_matched context.face_match
      && (if rfid_matched context
          then rfid_face_consistent context.face_match context.rfid_employee_id
          else (liveness_passed context.liveness || not require))

  abbrev pub employee_of : Option (SearchResult C) → Option String
  employee_of none = none
  employee_of (some m) = m.employee_id

  abbrev Graded : Bool → Bool → Bool → Bool → Option String → VerificationResult C → Type 0
  Graded pass rfid location live who r =
      (r.is_verified ≡ pass)
      × (r.level ≡ (if pass then grade rfid location live else unverified))
      × (pass ≡ true → r.employee_id ≡ who)

  rules-Graded :
      (zero : C) (face rfid location consistent live require : Bool) (m : SearchResult C)
      → Graded
          (face && (if rfid then consistent else (live || not require)))
          rfid
          location
          live
          m.employee_id
          (rules zero face rfid location consistent live require m)
  rules-Graded zero false rfid location consistent live require m = (refl, refl, λ h. cc)
  rules-Graded zero true true true true live require m = (refl, refl, λ h. refl)
  rules-Graded zero true true true false live require m = (refl, refl, λ h. cc)
  rules-Graded zero true true false true live require m = (refl, refl, λ h. refl)
  rules-Graded zero true true false false live require m = (refl, refl, λ h. cc)
  rules-Graded zero true false location consistent true require m = (refl, refl, λ h. refl)
  rules-Graded zero true false location consistent false false m = (refl, refl, λ h. refl)
  rules-Graded zero true false location consistent false true m = (refl, refl, λ h. cc)

  -- A person is verified exactly when the face is accepted and, with a card, the card is of the
  -- same person, or, without one, liveness passed or is not asked for; the level is the one of
  -- the table over card, location and liveness, and that of the unverified otherwise; whoever is
  -- verified is the employee of the face.
  pub verify-Graded :
      (zero : C) (require : Bool) (context : VerificationContext C)
      → ((verify zero require context).is_verified ≡ passes require context)
        × ((verify zero require context).level ≡ (
            if passes require context
            then grade
                (rfid_matched context)
                context.location_match
                (liveness_passed context.liveness)
            else unverified))
        × (passes require context ≡ true
            → (verify zero require context).employee_id ≡ employee_of context.face_match)
  unfolding verify
  verify-Graded zero require context = graded context.face_match
    where
      graded :
          (o : Option (SearchResult C))
          → Graded
              (face_matched o
                && (if rfid_matched context
                    then rfid_face_consistent o context.rfid_employee_id
                    else (liveness_passed context.liveness || not require)))
              (rfid_matched context)
              context.location_match
              (liveness_passed context.liveness)
              (employee_of o)
              (verify zero require (record context { face_match = o }))
      graded none = (refl, refl, λ h. cc)
      graded (some m) =
          rules-Graded zero (face_matched (some m)) (rfid_matched context) context.location_match
            (rfid_face_consistent (some m) context.rfid_employee_id)
            (liveness_passed context.liveness) require m
