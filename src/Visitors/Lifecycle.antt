-- ===== src/Visitors/Lifecycle.antt =====
-- Checks out, and the expiry of visits: what becomes of a visitor's access.
use attendance.Prelude.{
  ◌++◌, if◌then◌else◌, suc, length, ap, ◌∙◌, ℕ, zero, String, Bool, true, false, Option, none, some,
  List, [], ◌∷◌, ◌==◌, ◌&&◌, not, ◌≡◌, refl, any, select, map, member, arith, All,
}
use attendance.Prelude.Errors.{ok, err, value_error}
use attendance.Clock.{Zone}
use attendance.Visitors.Tables.{Visitor, VisitorFace, VisitorBadge, Desk}
use attendance.Visitors.Visits.{
  passage, left, departure, notify, is_checked_in, end_face, end_badge, end_access,
  check_out_visitor, log_visitor_event, expire_access, is_due, expire_visitors, expire_one,
}

abbrev is_live_face : ℕ → VisitorFace → Bool
is_live_face n f = f.visitor_id == n && f.is_active

abbrev is_live_badge : ℕ → VisitorBadge → Bool
is_live_badge n b = b.visitor_id == n && b.is_active

-- No face, no badge and no identity in the face service lets the visitor through.
pub record HasNoAccess (n : ℕ) (d : Desk) : Type 0 where
  pub faces : any (is_live_face n) d.faces ≡ false
  pub badges : any (is_live_badge n) d.badges ≡ false
  pub enrolled : member n d.enrolled ≡ false

end_face_self : (n : ℕ) (fs : List VisitorFace) → any (is_live_face n) (map (end_face n) fs) ≡ false
end_face_self n [] = refl
end_face_self n (f ∷ fs) = ground (arith, end_face_self n fs)

end_badge_self :
    (n : ℕ) (bs : List VisitorBadge) → any (is_live_badge n) (map (end_badge n) bs) ≡ false
end_badge_self n [] = refl
end_badge_self n (b ∷ bs) = ground (arith, end_badge_self n bs)

enrolled_self : (n : ℕ) (is : List ℕ) → member n (select (λ i. not (i == n)) is) ≡ false
enrolled_self n [] = refl
enrolled_self n (i ∷ is) = ground (arith, enrolled_self n is)

end_face-keeps :
    (n m : ℕ) (fs : List VisitorFace)
    → any (is_live_face n) fs ≡ false
    → any (is_live_face n) (map (end_face m) fs) ≡ false
end_face-keeps n m [] h = refl
end_face-keeps n m (f ∷ fs) h = ground (arith, end_face-keeps n m fs (ground arith))

end_badge-keeps :
    (n m : ℕ) (bs : List VisitorBadge)
    → any (is_live_badge n) bs ≡ false
    → any (is_live_badge n) (map (end_badge m) bs) ≡ false
end_badge-keeps n m [] h = refl
end_badge-keeps n m (b ∷ bs) h = ground (arith, end_badge-keeps n m bs (ground arith))

enrolled-keeps :
    (n m : ℕ) (is : List ℕ) → member n is ≡ false → member n (select (λ i. not (i == m)) is) ≡ false
enrolled-keeps n m [] h = refl
enrolled-keeps n m (i ∷ is) h = ground (arith, enrolled-keeps n m is (ground arith))

HasNoAccess-notify :
    (host : Option ℕ) (m : ℕ) (event : String) (n : ℕ) (d : Desk)
    → HasNoAccess n d
    → HasNoAccess n (notify host m event d)
HasNoAccess-notify none m event n d h = h
HasNoAccess-notify (some zero) m event n d h = h
HasNoAccess-notify (some (suc host)) m event n d h = record {
  faces = h.faces;
  badges = h.badges;
  enrolled = h.enrolled;
}

HasNoAccess-end_access : (n : ℕ) (d : Desk) → HasNoAccess n (end_access n d)
HasNoAccess-end_access n d = record {
  faces = end_face_self n d.faces;
  badges = end_badge_self n d.badges;
  enrolled = enrolled_self n d.enrolled;
}

-- The check-out of a checked-in visitor succeeds and leaves the visitor without access by a face,
-- a badge or an enrolment; a second check-out then raises.
pub check_out_visitor-HasNoAccess :
    (now later : ℕ) (user_id : Option ℕ) (method : String) (v : Visitor) (d : Desk)
    → is_checked_in v.status ≡ true
    → (v' : Visitor) × (d' : Desk) × (check_out_visitor now user_id method v d ≡ ok (v', d'))
      × HasNoAccess v.id d'
      × (check_out_visitor later user_id method v' d' ≡ err value_error)
unfolding check_out_visitor
check_out_visitor-HasNoAccess now later user_id method v d inside = (
  left now v,
  departure now user_id method v d,
  rw inside refl,
  HasNoAccess-notify v.host_employee_id v.id "visitor_checked_out" v.id
      (log_visitor_event v.id "checked_out" user_id (
        end_access v.id
          (record d { checkouts = d.checkouts ++ passage now user_id method v ∷ [] })))
      (record {
        faces = end_face_self v.id d.faces;
        badges = end_badge_self v.id d.badges;
        enrolled = enrolled_self v.id d.enrolled;
      }),
  refl,
)

HasNoAccess-expire_access :
    (n : ℕ) (v : Visitor) (d : Desk) → HasNoAccess n d → HasNoAccess n (expire_access v d)
HasNoAccess-expire_access n v d h =
    HasNoAccess-notify v.host_employee_id v.id "visitor_access_expired" n
      (log_visitor_event v.id "expired" none (end_access v.id d))
      (record {
        faces = end_face-keeps n v.id d.faces h.faces;
        badges = end_badge-keeps n v.id d.badges h.badges;
        enrolled = enrolled-keeps n v.id d.enrolled h.enrolled;
      })

HasNoAccess-expire_own : (v : Visitor) (d : Desk) → HasNoAccess v.id (expire_access v d)
HasNoAccess-expire_own v d =
    HasNoAccess-notify v.host_employee_id v.id "visitor_access_expired" v.id
      (log_visitor_event v.id "expired" none (end_access v.id d))
      (record {
        faces = end_face_self v.id d.faces;
        badges = end_badge_self v.id d.badges;
        enrolled = enrolled_self v.id d.enrolled;
      })

module _ (zone : Zone) (now : ℕ) where
  abbrev after_one : Bool → Visitor → Desk → Desk
  after_one due v d = if due then expire_access v d else d

  HasNoAccess-after_one :
      (n : ℕ) (due : Bool) (v : Visitor) (d : Desk)
      → HasNoAccess n d
      → HasNoAccess n (after_one due v d)
  HasNoAccess-after_one n true v d h = HasNoAccess-expire_access n v d h
  HasNoAccess-after_one n false v d h = h

  HasNoAccess-expire_visitors :
      (n : ℕ) (vs : List Visitor) (d : Desk)
      → HasNoAccess n d
      → HasNoAccess n (expire_visitors zone now vs d).2
  unfolding expire_visitors
  HasNoAccess-expire_visitors n [] d h = h
  HasNoAccess-expire_visitors n (v ∷ vs) d h =
      HasNoAccess-expire_visitors n vs (after_one (is_due zone now v) v d)
        (HasNoAccess-after_one n (is_due zone now v) v d h)

  HasNoAccess-first :
      (due : Bool) (v : Visitor) (d : Desk) → due ≡ true → HasNoAccess v.id (after_one due v d)
  HasNoAccess-first true v d h = HasNoAccess-expire_own v d
  HasNoAccess-first false v d h = cc

  not_due-step :
      (due : Bool) (v : Visitor)
      → is_due zone now v ≡ due
      → is_due zone now (if due then expire_one now v else v) ≡ false
  not_due-step true v h = refl
  not_due-step false v h = h

  length-if :
      (b : Bool) (v : Visitor) (vs : List Visitor)
      → (if b then suc (length vs) else length vs) ≡ length (if b then v ∷ vs else vs)
  length-if true v vs = refl
  length-if false v vs = refl

  -- After the visits that are over have been expired, none that was over grants access any more
  -- by a face, a badge or an enrolment, no visit is due for expiry at the same time any more, and
  -- the reported number is that of the visits that were due.
  pub expire_visitors-Ended :
      (vs : List Visitor) (d : Desk)
      → All (λ v. is_due zone now v ≡ true → HasNoAccess v.id (expire_visitors zone now vs d).2) vs
        × All (λ v. is_due zone now v ≡ false) (expire_visitors zone now vs d).1
        × ((expire_visitors zone now vs d).0 ≡ length (select (is_due zone now) vs))
  unfolding expire_visitors
  expire_visitors-Ended [] d = (tt, tt, refl)
  expire_visitors-Ended (v ∷ vs) d =
      let rest = after_one (is_due zone now v) v d in
      let (ended, quiet, count) = expire_visitors-Ended vs rest in
      (
        (
          λ h.
              HasNoAccess-expire_visitors v.id vs rest
                (HasNoAccess-first (is_due zone now v) v d h),
          ended,
        ),
        (not_due-step (is_due zone now v) v refl, quiet),
        ap (λ n. if is_due zone now v then suc n else n) count
            ∙ length-if (is_due zone now v) v (select (is_due zone now) vs),
      )
