-- ===== src/Rfid/Readers.antt =====
-- Readers: their names as devices, and their edits.
pub mod Names
use attendance.Prelude.{
  ℕ, zero, suc, Bool, true, false, Option, none, some, List, [], ◌∷◌, ◌++◌, ◌+◌, ◌/◌, ◌%◌, ◌==◌,
  ◌&&◌, ◌||◌, not, leb, if◌then◌else◌, any, first_where, update_where, length, String,
}
use mathlib.Core.List.{reverse}
use text.Mathlib.Text.{◌==◌ as str_eq}
use attendance.Prelude.Pytext.{Text, same_text}
use attendance.Prelude.Errors.{
  Result, ok, err, not_found, validation, integrity_error, ◌>>=◌, ◌>>◌, raise_if, or_raise,
}
use attendance.Tenant.{Scope, apply_tenant_filter}
use attendance.Attendance.Process.{Direction, inward, outward, both}
use attendance.Rfid.Tables.{Location, RfidReader}

abbrev pub parse_direction : String → Result Direction
parse_direction value =
    if str_eq value "in"
    then ok inward
    else if str_eq value "out"
    then ok outward
    else if str_eq value "both"
    then ok both
    else err validation

-- The threshold is `rfid_reader_offline_seconds` before now.
abbrev pub seen_since : Option ℕ → ℕ → Bool
seen_since none threshold = false
seen_since (some t) threshold = leb threshold t

abbrev pub reader_is_online : RfidReader → ℕ → Bool
reader_is_online reader threshold =
    reader.is_active && seen_since reader.last_heartbeat_at threshold

abbrev pub dash : ℕ
dash = 45

-- `[A-Z0-9]`
abbrev is_code : ℕ → Bool
is_code c = (leb 65 c && leb c 90) || (leb 48 c && leb c 57)

-- `re.sub(r"[^A-Z0-9]+", "-", text)`: a run of other characters becomes one dash.
abbrev pub dashed : Bool → Text → Text
dashed in_run [] = []
dashed in_run (c ∷ cs) =
    let out = dashed false cs in
    let more = dashed true cs in if is_code c then c ∷ out else if in_run then more else dash ∷ more

abbrev pub drop_dashes : Text → Text
drop_dashes [] = []
drop_dashes (c ∷ cs) = let rest = drop_dashes cs in if c == dash then rest else c ∷ cs

-- `text.strip("-")`
abbrev pub strip_dashes : Text → Text
strip_dashes t = reverse (drop_dashes (reverse (drop_dashes t)))

-- "READER"
abbrev reader_name : Text
reader_name = 82 ∷ 69 ∷ 65 ∷ 68 ∷ 69 ∷ 82 ∷ []

abbrev pub or_reader : Text → Text
or_reader [] = reader_name
or_reader (c ∷ cs) = c ∷ cs

-- The digits of a number, the last one first; a number has at most as many as itself and one.
abbrev pub digits : ℕ → ℕ → Text
digits zero n = []
digits (suc fuel) n =
    let rest = digits fuel (n / 10) in (48 + n % 10) ∷ (if n / 10 == 0 then [] else rest)

-- `f"{base}-{suffix}"`, and the base alone at first.
abbrev pub candidate : Text → ℕ → Text
candidate base zero = base
candidate base (suc n) = base ++ dash ∷ reverse (digits (suc (suc n)) (suc n))

abbrev pub is_taken : Text → List RfidReader → Bool
is_taken device_id readers = any (λ r. same_text r.device_id device_id) readers

-- The loop over the suffixes.
abbrev pub search_free : ℕ → Text → ℕ → List RfidReader → Option Text
search_free zero base n readers = none
search_free (suc fuel) base n readers =
    let rest = search_free fuel base (suc n) readers in
    if is_taken (candidate base n) readers then rest else some (candidate base n)

-- Python's `str.upper` is a parameter: it follows the Unicode database.
module _ (upper : Text → Text) where
  abbrev pub base_name : Text → Text
  base_name name = or_reader (strip_dashes (dashed false (upper name)))

  -- One round more than there are readers.
  unfoldable pub generate_device_id : Text → List RfidReader → Option Text
  generate_device_id name readers = search_free (suc (length readers)) (base_name name) 0 readers

abbrev pub location_passes : List Location → Scope → ℕ → Bool
location_passes locations scope location_id =
    any (λ l. l.id == location_id && apply_tenant_filter scope l.organization_id) locations

abbrev pub get_reader_or_404 : List Location → List RfidReader → ℕ → Scope → Result RfidReader
get_reader_or_404 locations readers reader_id scope =
    or_raise
      (first_where (λ r. r.id == reader_id && location_passes locations scope r.location_id)
        readers)
      not_found

-- The body of a new reader.
pub record ReaderBody : Type 0 where
  pub name : Text
  pub location_id : ℕ
  pub device_id : Option Text
  pub direction : String

-- `body.device_id or generated`
abbrev pub given_or : Option Text → Option Text → Option Text
given_or none generated = generated
given_or (some []) generated = generated
given_or (some (c ∷ cs)) generated = some (c ∷ cs)

-- A flush of a reader: its location exists, and no other has its device id.
abbrev pub flush_reader : List Location → List RfidReader → RfidReader → Result (Unit {0})
flush_reader locations readers reader = do
  raise_if (not (any (λ l. l.id == reader.location_id) locations)) integrity_error
  raise_if (any (λ r. not (r.id == reader.id) && same_text r.device_id reader.device_id) readers)
      integrity_error

-- The id and the hashed token of the new reader come from outside.
unfoldable pub create_reader :
    (Text → Text)
    → List Location
    → ℕ
    → Text
    → ReaderBody
    → List RfidReader
    → Result (RfidReader × List RfidReader)
create_reader upper locations id token body readers = do
  device_id ←
      or_raise (given_or body.device_id (generate_device_id upper body.name readers))
        integrity_error
  direction ← parse_direction body.direction
  let reader : RfidReader = record {
    id = id;
    location_id = body.location_id;
    name = body.name;
    device_id = device_id;
    direction = direction;
    api_token = token;
    is_active = true;
    last_heartbeat_at = none;
  }
  flush_reader locations readers reader
  ok (reader, readers ++ reader ∷ [])

-- The fields of an edit: unset, or set, perhaps to null. No column of a reader may be null.
pub record ReaderEdit : Type 0 where
  pub name : Option (Option Text)
  pub location_id : Option (Option ℕ)
  pub device_id : Option (Option Text)
  pub direction : Option (Option String)
  pub is_active : Option (Option Bool)

abbrev pub field_of {ℓ} : {A : Type ℓ} → Option (Option A) → A → Result A
field_of none old = ok old
field_of (some none) old = err integrity_error
field_of (some (some a)) old = ok a

abbrev pub direction_of : Option (Option String) → Direction → Result Direction
direction_of none old = ok old
direction_of (some none) old = err integrity_error
direction_of (some (some value)) old = parse_direction value

unfoldable pub update_reader :
    List Location → ℕ → Scope → ReaderEdit → List RfidReader → Result (RfidReader × List RfidReader)
update_reader locations reader_id scope edit readers = do
  reader ← get_reader_or_404 locations readers reader_id scope
  direction ← direction_of edit.direction reader.direction
  name ← field_of edit.name reader.name
  location_id ← field_of edit.location_id reader.location_id
  device_id ← field_of edit.device_id reader.device_id
  is_active ← field_of edit.is_active reader.is_active
  let reader' : RfidReader = record reader {
    direction = direction;
    name = name;
    location_id = location_id;
    device_id = device_id;
    is_active = is_active;
  }
  flush_reader locations readers reader'
  ok (reader', update_where (λ r. r.id == reader_id) (λ _. reader') readers)

unfoldable pub deactivate_reader :
    List Location → ℕ → Scope → List RfidReader → Result (List RfidReader)
deactivate_reader locations reader_id scope readers = do
  reader ← get_reader_or_404 locations readers reader_id scope
  ok (update_where (λ r. r.id == reader_id) (λ r. record r { is_active = false }) readers)

unfoldable pub regenerate_token :
    List Location → ℕ → Scope → Text → List RfidReader → Result (List RfidReader)
regenerate_token locations reader_id scope token readers = do
  reader ← get_reader_or_404 locations readers reader_id scope
  ok (update_where (λ r. r.id == reader_id) (λ r. record r { api_token = token }) readers)
