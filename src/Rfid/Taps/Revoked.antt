-- ===== src/Rfid/Taps/Revoked.antt =====
-- A revoked card opens nothing any more.
use attendance.Prelude.{
  ℕ, Bool, true, false, Option, none, some, List, ◌≡◌, refl, sym, ap, ◌∙◌, ◌==◌, ◌&&◌, first_where,
  first_where-update, arith,
}
use mathlib.Core.Path.{subst}
use attendance.Attendance.Queries.Keyed.{first_where-true}
use attendance.Prelude.Pytext.{Text}
use attendance.Prelude.Errors.{
  ok, not_found, ◌>>=◌, >>=-eq-ok, ok-injective, or_raise, or_raise-eq-ok,
}
use attendance.Clock.{Zone}
use attendance.Tenant.{Organization, Scope}
use attendance.Attendance.Tables.{Employee, Directory, Settings}
use attendance.Attendance.Process.{Call}
use attendance.Shifts.{employee_scope}
use attendance.Rfid.Tables.{Location, RfidReader, RfidCard, inactive}
use attendance.Rfid.Cards.{has_uid, clean_uid, may_revoke, revoke_card}
use attendance.Rfid.Cards.Unique.{IsOneUid, select_uid, update-IsOneUid}
use attendance.Rfid.Taps.{
  TapState, tap_card, tap_employee, process_tap, tap_time, record_event, refused, card_inactive,
}

-- The cards after a revocation: the revoked one is found by its uid, and is off.
revoke_card-off :
    (organizations : List Organization) (employees : List Employee) (org : Scope)
    (node_scope : Option Scope) (u : Text) (cards cards' : List RfidCard) (card : RfidCard)
    → IsOneUid cards
    → first_where (has_uid u) cards ≡ some card
    → revoke_card organizations employees card.id org node_scope cards ≡ ok cards'
    → IsOneUid cards' × (first_where (has_uid u) cards' ≡ some (record card { is_active = false }))
unfolding revoke_card
revoke_card-off organizations employees org node_scope u cards cards' card one found h =
    let p : RfidCard → Bool = λ c.
      c.id == card.id && may_revoke organizations employees (employee_scope org node_scope) c in
    let off : RfidCard → RfidCard = λ c. record c { is_active = false } in
    let (c, e, h1) = >>=-eq-ok (or_raise (first_where p cards) not_found) _ h in
    let passes = first_where-true p cards (or_raise-eq-ok (first_where p cards) not_found e) in
    let same : (card.id == c.id) ≡ true = ground (arith, passes) in
    let made = ok-injective h1 in
    (
      subst IsOneUid made (update-IsOneUid (λ x. x.id == c.id) off cards (λ x. refl) one),
      ap (first_where (has_uid u)) (sym made)
          ∙ first_where-update (has_uid u) (λ x. x.id == c.id) off cards (λ x. refl) same found,
    )

-- Where uids name one card each, once a card has been revoked every tap whose cleaned uid is the
-- card's, at any reader, is refused as inactive and leaves the attendance ledger as it was.
pub revoke_card-tap_inactive :
    (zone : Zone) (settings : Settings) (upper : Text → Text) (locations : List Location)
    (organizations : List Organization) (holders employees : List Employee) (org : Scope)
    (node_scope : Option Scope) (cards cards' : List RfidCard) (card : RfidCard) (dir : Directory)
    (now : ℕ) (call : Call) (uid : Text) (reader : RfidReader) (tapped_at : Option ℕ)
    (before : TapState)
    → IsOneUid cards
    → first_where (has_uid (clean_uid upper uid)) cards ≡ some card
    → revoke_card organizations holders card.id org node_scope cards ≡ ok cards'
    → (after : TapState) × (process_tap zone settings upper locations cards' employees dir now call
          uid reader tapped_at before
        ≡ ok (refused card_inactive (clean_uid upper uid), after))
      × (after.ledger ≡ before.ledger)
unfolding process_tap
revoke_card-tap_inactive zone settings upper locations organizations holders employees org
      node_scope cards cards' card dir now call uid reader tapped_at before one found h =
    let u = clean_uid upper uid in
    let t = tap_time tapped_at now in
    let (one', off) =
      revoke_card-off organizations holders org node_scope u cards cards' card one found h in
    let who = first_where (λ e. e.id == card.employee_id) employees in
    (
      record_event locations reader u inactive who t none before,
      ap
            (λ m. m >>= λ c.
              tap_card zone settings upper locations employees dir call reader u c t before)
            (select_uid u cards' one' ∙ ap ok off)
          ∙ refused_off who,
      refl,
    )
  where
    refused_off :
        (who : Option Employee)
        → tap_employee zone settings upper locations dir call reader
            (clean_uid upper uid)
            (record card { is_active = false })
            who
            (tap_time tapped_at now)
            before
          ≡ ok (
            refused card_inactive (clean_uid upper uid),
            record_event locations reader
                (clean_uid upper uid)
                inactive
                who
                (tap_time tapped_at now)
                none
                before,
          )
    refused_off none = refl
    refused_off (some e) = refl
