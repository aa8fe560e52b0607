-- ===== src/Licensing.antt =====
-- Licences of the desktop client (app/services/license_service.py). Texts that are only compared
-- (keys, fingerprints, hashes, signed files) are numbers.
pub mod Lifecycle
use scales_infrastructure.Prelude.{
  ℕ, ◌+◌, ◌*◌, Bool, true, false, not, ◌&&◌, Option, none, some, List, [], ◌∷◌, ◌++◌, String, ltb,
  leb, ◌==◌, is_none, is_some, is_value, get_or, same, find, select, update_where, if◌then◌else◌,
}

pub data LicenseStatus : Type 0 where
  unactivated active grace expired revoked : LicenseStatus

-- app/models/__init__.py, `License`
pub record License : Type 0 where
  pub id : ℕ
  pub venue_id : ℕ
  pub license_key_hash : ℕ
  pub fingerprint_hash : Option ℕ
  pub status : LicenseStatus
  pub plan : String
  pub seat_limit : Option ℕ
  pub expires_at : Option ℕ
  pub grace_days : Option ℕ
  pub activated_at : Option ℕ
  pub last_check_in_at : Option ℕ
  pub revoked_at : Option ℕ
  pub created_at : ℕ
  pub updated_at : ℕ

-- The claims of a licence file that some operation reads, and what it says of the licence. A
-- decoded token of another kind may lack them.
pub record Claims : Type 0 where
  pub license_id : Option ℕ
  pub fingerprint : Option ℕ
  pub venue_id : Option ℕ
  pub plan : Option String
  pub status : Option LicenseStatus
  pub grace_days : Option ℕ
  pub expires_at : Option ℕ
  pub exp : Option ℕ

-- What the service calls: SHA-256, the JWT library, and `datetime.fromisoformat` (in seconds). The
-- library decodes a token at a time, in seconds: it refuses a token that is past its `exp`.
pub record Platform : Type 0 where
  pub hash : ℕ → ℕ
  pub encode : Claims → ℕ
  pub decode : ℕ → ℕ → Option Claims
  pub parse_iso : ℕ → Option ℕ

-- A reading of the clock: the text of the time, and its seconds.
pub record Instant : Type 0 where
  pub stamp : ℕ
  pub seconds : ℕ

pub data Label : Type 0 where
  valid_label grace_label expired_label revoked_label invalid_label : Label

-- The answers; `refused` carries the status code of LicenseServiceError.
pub data Reply : Type 0 where
  licensed : License → ℕ → Reply
  created : License → ℕ → Reply
  requested : ℕ → Reply
  status_reply : Bool → Label → Option ℕ → Reply
  changed : Option License → Reply
  refused : ℕ → Reply
  multiple_rows : Reply

abbrev pub is_revoked : LicenseStatus → Bool
is_revoked revoked = true
is_revoked _ = false

abbrev pub has_id : ℕ → License → Bool
has_id k r = r.id == k

abbrev pub has_key : ℕ → License → Bool
has_key h r = r.license_key_hash == h

-- `row.fingerprint_hash and row.fingerprint_hash != fp_hash`
abbrev pub bound_elsewhere : ℕ → License → Bool
bound_elsewhere h r = is_some r.fingerprint_hash && not (is_value r.fingerprint_hash h)

-- `a or b`
abbrev pub or_now : Option ℕ → ℕ → Option ℕ
or_now none now = some now
or_now (some t) now = some t

-- The fields that each activation writes.
abbrev pub activated_row : ℕ → ℕ → License → License
activated_row now h r = record r {
  fingerprint_hash = some h;
  status = active;
  activated_at = or_now r.activated_at now;
  last_check_in_at = some now;
  updated_at = now;
}

-- `timedelta(days=365 * 10)`, in seconds
abbrev pub file_lifetime : ℕ
file_lifetime = 365 * 10 * 86400

-- The claims of `_sign_license_file` at a time in seconds; the subject, the venue's name, the type
-- and the times of issue are read neither by the service nor where the token is decoded.
abbrev pub claims_of : ℕ → License → ℕ → Claims
claims_of now r fingerprint = record {
  license_id = some r.id;
  fingerprint = some fingerprint;
  venue_id = some r.venue_id;
  plan = some r.plan;
  status = some r.status;
  grace_days = r.grace_days;
  expires_at = r.expires_at;
  exp = some (now + file_lifetime);
}

abbrev pub write_row : ℕ → (License → License) → List License → List License
write_row k f rows = update_where (has_id k) f rows

-- The end of an activation.
abbrev pub issue : Platform → Instant → ℕ → License → List License → Reply × List License
issue p i fingerprint r rows =
    let r' = activated_row i.stamp (p.hash fingerprint) r in
    (
      licensed r' (p.encode (claims_of i.seconds r' fingerprint)),
      write_row r.id (activated_row i.stamp (p.hash fingerprint)) rows,
    )

-- `create_license`, for a new key and id.
unfoldable pub create_license :
    Platform
    → Instant
    → ℕ
    → ℕ
    → ℕ
    → String
    → Option ℕ
    → Option ℕ
    → ℕ
    → List License
    → Reply × List License
create_license p i k key v plan seat_limit expires_at grace_days rows =
    let r : License = record {
      id = k;
      venue_id = v;
      license_key_hash = p.hash key;
      fingerprint_hash = none;
      status = unactivated;
      plan = plan;
      seat_limit = seat_limit;
      expires_at = expires_at;
      grace_days = some grace_days;
      activated_at = none;
      last_check_in_at = none;
      revoked_at = none;
      created_at = i.stamp;
      updated_at = i.stamp;
    } in
    (created r key, rows ++ r ∷ [])

abbrev pub revoked_row : ℕ → License → License
revoked_row now r = record r { status = revoked; revoked_at = some now; updated_at = now }

-- `revoke_license`
unfoldable pub revoke_license : Instant → ℕ → List License → Reply × List License
revoke_license i k rows = elim (find (has_id k) rows) [
  | none ↦ (changed none, rows)
  | some r ↦ (changed (some (revoked_row i.stamp r)), write_row k (revoked_row i.stamp) rows)
]

-- The guards of an activation by key: the row, its status, its device.
abbrev admit :
    ℕ
    → License
    → (License → List License → Reply × List License)
    → List License
    → Reply × List License
admit h r go rows =
    if is_revoked r.status
    then (refused 403, rows)
    else (if bound_elsewhere h r then (refused 409, rows) else go r rows)

-- `get_license_by_key`: two rows with the hash raise.
abbrev license_by_key :
    ℕ
    → List License
    → (License → List License → Reply × List License)
    → List License
    → Reply × List License
license_by_key h [] go rows = (refused 404, rows)
license_by_key h (r ∷ []) go rows = admit h r go rows
license_by_key h (r ∷ _ ∷ _) go rows = (multiple_rows, rows)

-- `activate_online`
unfoldable pub activate_online : Platform → Instant → ℕ → ℕ → List License → Reply × List License
activate_online p i key fingerprint rows =
    license_by_key (p.hash fingerprint) (select (has_key (p.hash key)) rows) (issue p i fingerprint)
      rows

-- `request_offline_activation`; the answer names the licence.
unfoldable pub request_offline_activation : Platform → ℕ → ℕ → List License → Reply × List License
request_offline_activation p key fingerprint rows =
    license_by_key (p.hash fingerprint) (select (has_key (p.hash key)) rows)
      (λ r rows'. (requested r.id, rows')) rows

-- `create_offline_activation_file`: it binds the licence to the device, whatever it was bound to.
unfoldable pub create_offline_activation_file :
    Platform → Instant → ℕ → ℕ → ℕ → List License → Reply × List License
create_offline_activation_file p i k admin_venue fingerprint rows = elim (find (has_id k) rows) [
  | none ↦ (refused 404, rows)
  | some r ↦
      if not (r.venue_id == admin_venue)
      then (refused 403, rows)
      else (if is_revoked r.status then (refused 403, rows) else issue p i fingerprint r rows)
]

-- The part of `activate_offline` after the claims are read.
abbrev adopt : Platform → Instant → ℕ → ℕ → Option License → List License → Reply × List License
adopt p i file fingerprint none rows = (refused 404, rows)
adopt p i file fingerprint (some r) rows =
    admit (p.hash fingerprint) r
      (λ q rows'. (
        licensed (activated_row i.stamp (p.hash fingerprint) q) file,
        write_row q.id (activated_row i.stamp (p.hash fingerprint)) rows',
      ))
      rows

abbrev adopt_claims :
    Platform → Instant → ℕ → ℕ → Option ℕ → Option ℕ → List License → Reply × List License
adopt_claims p i file fingerprint (some k) (some owner) rows =
    if owner == fingerprint
    then adopt p i file fingerprint (find (has_id k) rows) rows
    else (refused 403, rows)
adopt_claims p i file fingerprint _ _ rows = (refused 400, rows)

-- `activate_offline`
unfoldable pub activate_offline : Platform → Instant → ℕ → ℕ → List License → Reply × List License
activate_offline p i file fingerprint rows = elim (p.decode i.seconds file) [
  | none ↦ (refused 400, rows)
  | some c ↦ adopt_claims p i file fingerprint c.license_id c.fingerprint rows
]

-- `expires`, if it is set and parses
abbrev pub expiry : Platform → License → Option ℕ
expiry p r = elim r.expires_at [ none ↦ none | some t ↦ p.parse_iso t ]

abbrev pub grace_end : ℕ → License → ℕ
grace_end e r = e + get_or r.grace_days 0 * 86400

-- `status_label`
abbrev pub label_at : ℕ → Option ℕ → License → Label
label_at now none r = valid_label
label_at now (some e) r =
    if ltb e now
    then (if leb now (grace_end e r) then grace_label else expired_label)
    else valid_label

abbrev restored : LicenseStatus → LicenseStatus
restored expired = active
restored grace = active
restored s = s

abbrev pub status_after : Label → LicenseStatus → LicenseStatus
status_after grace_label s = grace
status_after expired_label s = expired
status_after _ s = restored s

abbrev pub is_ok : Label → Bool
is_ok expired_label = false
is_ok _ = true

abbrev same_status : LicenseStatus → LicenseStatus → Bool
same_status unactivated unactivated = true
same_status active active = true
same_status grace grace = true
same_status expired expired = true
same_status revoked revoked = true
same_status _ _ = false

-- A status that changes is written with the time.
abbrev pub checked_row : ℕ → Label → License → License
checked_row now l r =
    if same_status (status_after l r.status) r.status
    then r
    else record r { status = status_after l r.status; updated_at = now }

abbrev wrong_device : Platform → Option ℕ → License → Bool
wrong_device p none r = false
wrong_device p (some fingerprint) r = not (is_value r.fingerprint_hash (p.hash fingerprint))

-- The part of `check_license_status` on a row.
abbrev pub check_row : Platform → Instant → Option ℕ → License → List License → Reply × List License
check_row p i device r rows =
    if is_revoked r.status
    then (status_reply false revoked_label none, rows)
    else (if wrong_device p device r
        then (status_reply false invalid_label none, rows)
        else (let l = label_at i.seconds (expiry p r) r in
            (status_reply (is_ok l) l (some r.id), write_row r.id (checked_row i.stamp l) rows)))

abbrev invalid : List License → Reply × List License
invalid rows = (status_reply false invalid_label none, rows)

abbrev pub check_id : Platform → Instant → Option ℕ → Option ℕ → List License → Reply × List License
check_id p i device none rows = invalid rows
check_id p i device (some k) rows = elim (find (has_id k) rows) [
  | none ↦ invalid rows
  | some r ↦ check_row p i device r rows
]

-- `check_license_status`; no file is `none`, no fingerprint too.
unfoldable pub check_license_status :
    Platform → Instant → Option ℕ → Option ℕ → List License → Reply × List License
check_license_status p i none device rows = invalid rows
check_license_status p i (some file) device rows = elim (p.decode i.seconds file) [
  | none ↦ invalid rows
  | some c ↦ check_id p i device c.license_id rows
]

abbrev seen_row : ℕ → License → License
seen_row now r = record r { last_check_in_at = some now; updated_at = now }

abbrev note_check_in : ℕ → Reply → List License → List License
note_check_in now (status_reply true l (some k)) rows = write_row k (seen_row now) rows
note_check_in now _ rows = rows

-- `check_in`
unfoldable pub check_in : Platform → Instant → Option ℕ → ℕ → List License → Reply × List License
unfolding check_license_status
check_in p i file fingerprint rows =
    let (answer, rows') = check_license_status p i file (some fingerprint) rows in
    (answer, note_check_in i.stamp answer rows')
