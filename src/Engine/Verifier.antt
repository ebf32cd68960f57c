-- ===== src/Engine/Verifier.antt =====
-- Verification by several factors: backend/app/engine/identity_verifier.py. A confidence is carried
-- along and never computed with: its type is a parameter, with the `0.0` of a result without a face.
pub mod Levels
use text.Mathlib.Text.{◌==◌ as str_eq}
use attendance.Prelude.{
  Bool, true, false, not, ◌&&◌, Option, none, some, is_some, String, if◌then◌else◌,
}

pub data VerificationLevel : Type 0 where
  unverified basic verified high_security maximum_security : VerificationLevel

pub data VerificationMethod : Type 0 where
  face_only face_liveness face_rfid face_rfid_location : VerificationMethod

-- `MatchAction` of the vector search.
pub data MatchAction : Type 0 where
  auto_accept review unknown : MatchAction

pub data Reason : Type 0 where
  face_rfid_mismatch liveness_failed no_face_match low_confidence_review unknown_person : Reason

abbrev pub is_accepted : MatchAction → Bool
is_accepted auto_accept = true
is_accepted _ = false

-- `if text`: neither none nor empty.
abbrev pub given : Option String → Option String
given none = none
given (some s) = if str_eq s "" then none else some s

abbrev pub same_string : Option String → Option String → Bool
same_string none none = true
same_string (some a) (some b) = str_eq a b
same_string _ _ = false

abbrev pub liveness_passed : Option Bool → Bool
liveness_passed none = false
liveness_passed (some passed) = passed

abbrev pub same_person : Option String → Option String → Bool
same_person employee_id none = false
same_person employee_id (some s) = same_string employee_id (some s)

abbrev pub why_not : MatchAction → Reason
why_not auto_accept = no_face_match
why_not review = low_confidence_review
why_not unknown = unknown_person

module _ (C : Type 0) where
  pub record SearchResult : Type 0 where
    pub action : MatchAction
    pub employee_id : Option String
    pub confidence : C

  -- The liveness by its `passed`.
  pub record VerificationContext : Type 0 where
    pub face_match : Option SearchResult
    pub liveness : Option Bool
    pub rfid_match : Bool
    pub rfid_employee_id : Option String
    pub location_match : Bool

  pub record VerificationResult : Type 0 where
    pub is_verified : Bool
    pub level : VerificationLevel
    pub method : VerificationMethod
    pub employee_id : Option String
    pub confidence : C
    pub reason : Option Reason

module _ {C : Type 0} where
  abbrev pub face_matched : Option (SearchResult C) → Bool
  face_matched none = false
  face_matched (some m) = is_accepted m.action

  abbrev pub rfid_matched : VerificationContext C → Bool
  rfid_matched context = context.rfid_match && is_some context.rfid_employee_id

  abbrev pub rfid_face_consistent : Option (SearchResult C) → Option String → Bool
  rfid_face_consistent none rfid = false
  rfid_face_consistent (some m) rfid = same_person m.employee_id (given rfid)

  abbrev pub grant : VerificationLevel → VerificationMethod → SearchResult C → VerificationResult C
  grant level method m = record {
    is_verified = true;
    level = level;
    method = method;
    employee_id = m.employee_id;
    confidence = m.confidence;
    reason = none;
  }

  abbrev pub refuse : VerificationMethod → Option String → C → Reason → VerificationResult C
  refuse method employee_id confidence reason = record {
    is_verified = false;
    level = unverified;
    method = method;
    employee_id = employee_id;
    confidence = confidence;
    reason = some reason;
  }

  -- The rules on a face, in their order.
  abbrev pub rules :
      C → Bool → Bool → Bool → Bool → Bool → Bool → SearchResult C → VerificationResult C
  rules zero face rfid location consistent live require m =
      if (face && (rfid && location)) && consistent
      then grant maximum_security face_rfid_location m
      else if face && rfid
      then (if consistent
          then grant high_security face_rfid m
          else refuse face_rfid none zero face_rfid_mismatch)
      else if face && live
      then grant verified face_liveness m
      else if face && not require
      then grant basic face_only m
      else if face && not live
      then refuse face_liveness m.employee_id m.confidence liveness_failed
      else refuse face_only none m.confidence (why_not m.action)

  -- `require` is `cfg.require_liveness`.
  unfoldable pub verify : C → Bool → VerificationContext C → VerificationResult C
  verify zero require context = elim context.face_match [
    | none ↦ refuse face_only none zero no_face_match
    | some m ↦
        rules zero (face_matched (some m)) (rfid_matched context) context.location_match
          (rfid_face_consistent (some m) context.rfid_employee_id)
          (liveness_passed context.liveness) require m
  ]
