-- ===== src/Visitors/Arrivals.antt =====
-- Checks in: who may come in, and what holds of a visitor who is inside.
use attendance.Prelude.{
  ℕ, String, Bool, true, false, Option, some, [], ◌∷◌, ◌++◌, ◌+◌, ◌*◌, ◌≤◌, ◌≡◌,
}
use attendance.Prelude.Errors.{Result, ok, err, value_error}
use attendance.Clock.{minute}
use attendance.Visitors.Tables.{
  Visitor, VisitorStatus, ApprovalStatus, VisitorSettings, Passage, Desk, checked_in,
  security_approved, approved,
}
use attendance.Visitors.Visits.{check_in_visitor, check_out_visitor}
use attendance.Visitors.Lifecycle.{HasNoAccess}

-- Who may come in: with the last approval or that of security, and not twice.
abbrev pub is_welcome : VisitorStatus → ApprovalStatus → Bool
is_welcome checked_in _ = false
is_welcome _ approved = true
is_welcome _ security_approved = true
is_welcome _ _ = false

-- The visit of a visitor who has come in ends now or later, at the time that was planned where
-- that is not over, and the access of the face ends a buffer later. One check-in has been added.
-- The visitor cannot come in again, and can leave at any time, then without any access.
pub record IsInside (settings : VisitorSettings) (now : ℕ) (v : Visitor) (d : Desk) (v' : Visitor)
    (d' : Desk) : Type 0 where
  pub visit_end : ℕ
  pub checked_in_at : v'.checked_in_at ≡ some now
  pub visit_end_at : v'.visit_end_at ≡ some visit_end
  pub not_over : now ≤ visit_end
  pub planned : (t : ℕ) → v.visit_end_at ≡ some t → now ≤ t → visit_end ≡ t
  pub face :
      v'.face_expires_at ≡ some (visit_end + settings.visitor_face_expiry_buffer_minutes * minute)
  pub passed : Passage
  pub checkins : d'.checkins ≡ d.checkins ++ passed ∷ []
  pub passed_by : passed.visitor_id ≡ v.id
  pub passed_at : passed.passed_at ≡ now
  pub once :
      (later : ℕ) (user_id : Option ℕ) (method : String)
      → check_in_visitor settings later user_id method v' d' ≡ err value_error
  pub leaves :
      (later : ℕ) (user_id : Option ℕ) (method : String)
      → (gone : Visitor) × (after : Desk) × (check_out_visitor later user_id method v' d'
          ≡ ok (gone, after))
        × HasNoAccess v.id after

-- What a check-in comes to, by whether the visitor is welcome.
abbrev pub Entered : Bool → VisitorSettings → ℕ → Visitor → Desk → Result (Visitor × Desk) → Type 0
Entered true settings now v d m =
    (v' : Visitor) × (d' : Desk) × (m ≡ ok (v', d')) × IsInside settings now v d v' d'
Entered false settings now v d m = m ≡ err value_error
