-- ===== src/Tests/LicensingRuns.antt =====
-- Runs of app/services/license_service.py.
use scales_infrastructure.Prelude.{
  ◌+◌, ◌*◌, ◌≡◌, refl, false, none, some, [], ◌∷◌, leb, get_or, if◌then◌else◌, arith,
}
use scales_infrastructure.Licensing.{
  License, unactivated, Claims, Platform, Instant, refused, status_reply, licensed, valid_label,
  invalid_label, file_lifetime, grace_label, expired_label, revoked_label, activated_row, claims_of,
  expiry, label_at, is_ok, revoke_license, activate_online, request_offline_activation,
  create_offline_activation_file, activate_offline, check_license_status,
}
use scales_infrastructure.Licensing.Lifecycle.{
  activate_online_binds, Decodes, activate_online-check, revoke_license_lem,
  check_license_status_by_time,
}

abbrev licence : License
licence = record {
  id = 5;
  venue_id = 7;
  license_key_hash = 1100;
  fingerprint_hash = none;
  status = unactivated;
  plan = "basic";
  seat_limit = none;
  expires_at = some 20260401000000;
  grace_days = some 7;
  activated_at = none;
  last_check_in_at = none;
  revoked_at = none;
  created_at = 20260101000000;
  updated_at = 20260101000000;
}

abbrev bound_licence : License
bound_licence = activated_row 20260110000000 1042 licence

abbrev noon : Instant
noon = record { stamp = 20260314120000; seconds = 1000 }

abbrev later : Instant
later = record { stamp = 20260402120000; seconds = 2000 + 86400 }

abbrev file_claims : Claims
file_claims = claims_of 1000 (activated_row 20260314120000 1042 licence) 42

-- A stand-in for the libraries: one signed file, and one expiry.
abbrev platform : Platform
platform = record {
  hash = λ n. n + 1000;
  encode = λ c. 77;
  decode = λ t n. if leb t (1000 + file_lifetime) then some file_claims else none;
  parse_iso = λ t. some 2000;
}

activate_online_binds_example :
    (activate_online platform later 100 43 (activate_online platform noon 100 42 (licence ∷ [])).1
      ≡ (refused 409, (activate_online platform noon 100 42 (licence ∷ [])).1))
    × (request_offline_activation platform 100 43
          (activate_online platform noon 100 42 (licence ∷ [])).1
        ≡ (refused 409, (activate_online platform noon 100 42 (licence ∷ [])).1))
activate_online_binds_example =
    activate_online_binds platform noon later 100 42 43 licence (licence ∷ []) refl refl refl refl

decodes : Decodes platform file_claims
decodes = record { until = λ e t same le. ground arith; past = λ e t same lt. ground arith }

activate_online-check_example :
    ((activate_online platform noon 100 42 (licence ∷ [])).0
      ≡ licensed (activated_row 20260314120000 1042 licence) 77)
    × ((check_license_status platform later
          (some 77)
          (some 42)
          (activate_online platform noon 100 42 (licence ∷ [])).1).0
        ≡ (if leb later.seconds (noon.seconds + 3650 * 86400)
            then status_reply
                (is_ok (label_at later.seconds (expiry platform licence) licence))
                (label_at later.seconds (expiry platform licence) licence)
                (some 5)
            else status_reply false invalid_label none))
activate_online-check_example =
    activate_online-check platform noon later 100 42 licence (licence ∷ []) decodes refl refl refl
      refl

revoke_license_lem_example :
    (activate_online platform later 100 42 (revoke_license noon 5 (licence ∷ [])).1
      ≡ (refused 403, (revoke_license noon 5 (licence ∷ [])).1))
    × (request_offline_activation platform 100 42 (revoke_license noon 5 (licence ∷ [])).1
        ≡ (refused 403, (revoke_license noon 5 (licence ∷ [])).1))
    × (create_offline_activation_file platform later 5 7 42 (revoke_license noon 5 (licence ∷ [])).1
        ≡ (refused 403, (revoke_license noon 5 (licence ∷ [])).1))
    × (activate_offline platform later 77 42 (revoke_license noon 5 (licence ∷ [])).1
        ≡ (refused 403, (revoke_license noon 5 (licence ∷ [])).1))
    × (check_license_status platform later
          (some 77)
          (some 42)
          (revoke_license noon 5 (licence ∷ [])).1
        ≡ (status_reply false revoked_label none, (revoke_license noon 5 (licence ∷ [])).1))
revoke_license_lem_example =
    revoke_license_lem platform noon later 100 42 7 77 file_claims licence (licence ∷ []) refl refl
      refl refl refl

check_license_status_by_time_example :
    (check_license_status platform later (some 77) (some 42) (bound_licence ∷ [])).0
    ≡ status_reply
        (leb later.seconds (2000 + get_or bound_licence.grace_days 0 * 86400))
        (if leb later.seconds 2000
          then valid_label
          else (if leb later.seconds (2000 + get_or bound_licence.grace_days 0 * 86400)
              then grace_label
              else expired_label))
        (some 5)
check_license_status_by_time_example =
    check_license_status_by_time platform later 77 42 2000 file_claims bound_licence
      (bound_licence ∷ []) refl refl refl refl refl refl
