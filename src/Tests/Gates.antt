-- ===== src/Tests/Gates.antt =====
-- A reader with a card of the employee, and a face with a card.
use attendance.Prelude.{ℕ, true, false, none, some, List, [], ◌∷◌, ◌≡◌, refl, first_where}
use attendance.Prelude.Pytext.{Text, strip}
use attendance.Prelude.Errors.{ok, err, conflict}
use attendance.Tenant.{everything, apply_employee_tenant_filter}
use attendance.Attendance.Process.{both}
use attendance.Shifts.{require_org_employee}
use attendance.Rfid.Tables.{Location, RfidReader, RfidCard}
use attendance.Rfid.Readers.{is_taken, generate_device_id}
use attendance.Rfid.Readers.Names.{generate_device_id-free}
use attendance.Rfid.Cards.{has_uid, clean_uid, new_card, add_employee_card, revoke_card}
use attendance.Rfid.Cards.Unique.{add_employee_card_unique}
use attendance.Rfid.Taps.{TapState, process_tap, refused, card_inactive}
use attendance.Rfid.Taps.Revoked.{revoke_card-tap_inactive}
use attendance.Engine.Verifier.{verify, VerificationContext, auto_accept, maximum_security}
use attendance.Engine.Verifier.Levels.{verify-Graded}
use attendance.Tests.Data.{
  zone, settings, worker, directory, organizations, morning, punch_call, empty_ledger,
}

abbrev same : Text → Text
same t = t

abbrev gate : RfidReader
gate = record {
  id = 1;
  location_id = 1;
  name = 71 ∷ [];
  device_id = 71 ∷ [];
  direction = both;
  api_token = [];
  is_active = true;
  last_heartbeat_at = none;
}

abbrev places : List Location
places = record { id = 1; organization_id = 1 } ∷ []

-- A second reader "G" becomes "G-1".
second_gate : generate_device_id same (71 ∷ []) (gate ∷ []) ≡ some (71 ∷ 45 ∷ 49 ∷ [])
unfolding generate_device_id
second_gate = refl

generate_device_id-free_example :
    (d : Text) × (generate_device_id same (71 ∷ []) (gate ∷ []) ≡ some d)
    × (is_taken d (gate ∷ []) ≡ false)
generate_device_id-free_example = generate_device_id-free same (71 ∷ []) (gate ∷ [])

abbrev card : RfidCard
card = new_card 1 7 (65 ∷ 66 ∷ []) none

added :
    add_employee_card same organizations
      (worker ∷ [])
      1
      7
      everything
      none
      (65 ∷ 66 ∷ 32 ∷ [])
      none
      []
    ≡ ok (card, card ∷ [])
unfolding add_employee_card strip apply_employee_tenant_filter
added = refl

entitled : require_org_employee organizations (worker ∷ []) 7 everything none ≡ ok tt
unfolding apply_employee_tenant_filter
entitled = refl

add_employee_card_unique_example :
    add_employee_card same organizations
      (worker ∷ [])
      2
      7
      everything
      none
      (65 ∷ 66 ∷ 32 ∷ [])
      none
      (card ∷ [])
    ≡ err conflict
add_employee_card_unique_example =
    (add_employee_card_unique same organizations (worker ∷ []) 1 7 everything none
        (65 ∷ 66 ∷ 32 ∷ []) none [] (card ∷ []) card tt added).2
      2 7 (65 ∷ 66 ∷ 32 ∷ []) none refl entitled

abbrev quiet_desk : TapState
quiet_desk = record { ledger = empty_ledger; events = []; emitted = [] }

card_found : first_where (has_uid (clean_uid same (65 ∷ 66 ∷ []))) (card ∷ []) ≡ some card
unfolding strip
card_found = refl

revoked :
    revoke_card organizations (worker ∷ []) 1 everything none (card ∷ [])
    ≡ ok (record card { is_active = false } ∷ [])
unfolding revoke_card apply_employee_tenant_filter
revoked = refl

revoke_card-tap_inactive_example :
    (after : TapState) × (process_tap zone settings same places
        (record card { is_active = false } ∷ [])
        (worker ∷ [])
        directory
        morning
        (punch_call morning)
        (65 ∷ 66 ∷ [])
        gate
        none
        quiet_desk
      ≡ ok (refused card_inactive (clean_uid same (65 ∷ 66 ∷ [])), after))
    × (after.ledger ≡ quiet_desk.ledger)
revoke_card-tap_inactive_example =
    revoke_card-tap_inactive zone settings same places organizations (worker ∷ []) (worker ∷ [])
      everything none (card ∷ []) (record card { is_active = false } ∷ []) card directory morning
      (punch_call morning) (65 ∷ 66 ∷ []) gate none quiet_desk (refl, tt) card_found revoked

-- An accepted face with a card of the same person, seen where it should be.
abbrev seen : VerificationContext ℕ
seen = record {
  face_match = some (record { action = auto_accept; employee_id = some "7"; confidence = 95 });
  liveness = none;
  rfid_match = true;
  rfid_employee_id = some "7";
  location_match = true;
}

verify-Graded_example :
    ((verify 0 true seen).is_verified ≡ true)
    × ((verify 0 true seen).level ≡ maximum_security)
    × (true ≡ true → (verify 0 true seen).employee_id ≡ some "7")
verify-Graded_example = verify-Graded 0 true seen
