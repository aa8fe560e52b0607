-- ===== src/Licensing/Lifecycle.antt =====
-- What a licence allows, and when (app/services/license_service.py).
use scales_infrastructure.Prelude.{
  ℕ, ◌+◌, ◌*◌, ◌≤◌, ◌<◌, ◌≡◌, refl, ap, ◌∙◌, Bool, true, false, not, Option, none, some, List, [],
  ◌∷◌, leb, ◌==◌, get_or, find, select, update_where, arith, Bool-cases, inl, inr, if◌then◌else◌,
}
use scales_infrastructure.Licensing.{
  License, Claims, Platform, Instant, Label, Reply, refused, status_reply, licensed, valid_label,
  invalid_label, file_lifetime, grace_label, expired_label, revoked_label, is_revoked, has_id,
  has_key, bound_elsewhere, activated_row, revoked_row, claims_of, expiry, grace_end, label_at,
  is_ok, check_row, check_id, issue, write_row, revoke_license, activate_online,
  request_offline_activation, create_offline_activation_file, activate_offline,
  check_license_status,
}

module _ {A : Type 0} where
  select-update_where :
      (q p : A → Bool) (f : A → A)
      → ((x : A) → q (f x) ≡ q x)
      → (xs : List A) → select q (update_where p f xs) ≡ update_where p f (select q xs)
  select-update_where q p f same [] = refl
  select-update_where q p f same (x ∷ xs) =
      ground (arith, same x, select-update_where q p f same xs)

  find-update_where :
      (p : A → Bool) (f : A → A)
      → ((x : A) → p (f x) ≡ p x)
      → (xs : List A) (a : A) → find p xs ≡ some a
      → find p (update_where p f xs) ≡ some (f a)
  find-update_where p f same [] a h = absurd (ground arith)
  find-update_where p f same (x ∷ xs) a h = ground (arith, same x, find-update_where p f same xs a)

==_refl : (n : ℕ) → (n == n) ≡ true
==_refl n = ground arith

-- The row of a key after an update of its licence.
select_key :
    (h : ℕ) (f : License → License) (rows : List License) (r : License)
    → ((x : License) → has_key h (f x) ≡ has_key h x)
    → select (has_key h) rows ≡ r ∷ []
    → select (has_key h) (write_row r.id f rows) ≡ f r ∷ []
select_key h f rows r same one =
    select-update_where (has_key h) (has_id r.id) f same rows
    ∙ ap (update_where (has_id r.id) f) one
    ∙ rw (==_refl r.id)

-- A licence that is activated on a device is refused to every device of another hash, and the
-- refusal changes nothing.
pub activate_online_binds :
    (p : Platform) (i j : Instant) (key device other : ℕ) (r : License) (rows : List License)
    → select (has_key (p.hash key)) rows ≡ r ∷ []
    → is_revoked r.status ≡ false
    → bound_elsewhere (p.hash device) r ≡ false
    → (p.hash device == p.hash other) ≡ false
    → let after : List License = (activate_online p i key device rows).1 in
      (activate_online p j key other after ≡ (refused 409, after))
      × (request_offline_activation p key other after ≡ (refused 409, after))
unfolding activate_online request_offline_activation
activate_online_binds p i j key device other r rows one live free apart =
    let f = activated_row i.stamp (p.hash device) in
    let after = select_key (p.hash key) f rows r (λ x. refl) one in
    rw one (rw live (rw free (rw after (rw apart (refl, refl)))))

-- The check of a file that names a licence of the table.
check_known :
    (p : Platform) (i : Instant) (file k : ℕ) (device : Option ℕ) (c : Claims) (r : License)
    (rows : List License)
    → p.decode i.seconds file ≡ some c
    → c.license_id ≡ some k
    → find (has_id k) rows ≡ some r
    → check_license_status p i (some file) device rows ≡ check_row p i device r rows
unfolding check_license_status
check_known p i file k device c r rows decoded names found =
    rw (check_license_status, decoded, names, check_id, found)

check_undecoded :
    (p : Platform) (i : Instant) (file : ℕ) (device : Option ℕ) (rows : List License)
    → p.decode i.seconds file ≡ none
    → (check_license_status p i (some file) device rows).0 ≡ status_reply false invalid_label none
unfolding check_license_status
check_undecoded p i file device rows lapsed = rw (check_license_status, lapsed)

activate_online-issue :
    (p : Platform) (i : Instant) (key device : ℕ) (r : License) (rows : List License)
    → select (has_key (p.hash key)) rows ≡ r ∷ []
    → is_revoked r.status ≡ false
    → bound_elsewhere (p.hash device) r ≡ false
    → activate_online p i key device rows ≡ issue p i device r rows
unfolding activate_online
activate_online-issue p i key device r rows one live free = rw one (rw live (rw free))

label_same :
    (now stamp h : ℕ) (o : Option ℕ) (r : License)
    → label_at now o (activated_row stamp h r) ≡ label_at now o r
label_same now stamp h none r = refl
label_same now stamp h (some e) r = refl

label_at-activated :
    (p : Platform) (stamp h now : ℕ) (r : License)
    → label_at now (expiry p (activated_row stamp h r)) (activated_row stamp h r)
      ≡ label_at now (expiry p r) r
label_at-activated p stamp h now r = label_same now stamp h (expiry p r) r

-- What the JWT library documents: a token decodes to its claims up to its `exp`, and not after it.
pub record Decodes (p : Platform) (c : Claims) : Type 0 where
  pub until : (e t : ℕ) → c.exp ≡ some e → t ≤ e → p.decode t (p.encode c) ≡ some c
  pub past : (e t : ℕ) → c.exp ≡ some e → e < t → p.decode t (p.encode c) ≡ none

-- The file that an activation issues is accepted from the same device for ten years, in which the
-- answer of the check depends on the time alone, and it is invalid from then on. The file is to
-- decode to its claims up to their `exp` and not after it, and the licence to be the first row with its id.
pub activate_online-check :
    (p : Platform) (i j : Instant) (key device : ℕ) (r : License) (rows : List License)
    → Decodes p (claims_of i.seconds (activated_row i.stamp (p.hash device) r) device)
    → select (has_key (p.hash key)) rows ≡ r ∷ []
    → find (has_id r.id) rows ≡ some r
    → is_revoked r.status ≡ false
    → bound_elsewhere (p.hash device) r ≡ false
    → let r' : License = activated_row i.stamp (p.hash device) r in
      let file : ℕ = p.encode (claims_of i.seconds r' device) in
      let after : List License = (activate_online p i key device rows).1 in
      let l : Label = label_at j.seconds (expiry p r) r in
      ((activate_online p i key device rows).0 ≡ licensed r' file)
      × ((check_license_status p j (some file) (some device) after).0 ≡ (
          if leb j.seconds (i.seconds + 3650 * 86400)
          then status_reply (is_ok l) l (some r.id)
          else status_reply false invalid_label none))
activate_online-check p i j key device r rows decodes one found live free =
    let f = activated_row i.stamp (p.hash device) in
    let claims = claims_of i.seconds (f r) device in
    let issued = activate_online-issue p i key device r rows one live free in
    let after = find-update_where (has_id r.id) f (λ x. refl) rows r found in
    rw issued (
      refl,
      elim (Bool-cases (leb j.seconds (i.seconds + 3650 * 86400))) [
        | inl early ↦
            let decoded : p.decode j.seconds (p.encode claims) ≡ some claims =
              decodes.until (i.seconds + file_lifetime) j.seconds refl (ground arith) in
            let checked =
              check_known p j (p.encode claims) r.id (some device) _ (f r) (write_row r.id f rows)
                decoded refl after in
            rw early (
              ap (λ (x : Reply × List License). x.0) checked
              ∙ rw (
                ==_refl (p.hash device),
                label_at-activated p i.stamp (p.hash device) j.seconds r,
              ))
        | inr late ↦
            let lapsed : p.decode j.seconds (p.encode claims) ≡ none =
              decodes.past (i.seconds + file_lifetime) j.seconds refl (ground arith) in
            rw late
              (check_undecoded p j (p.encode claims) (some device) (write_row r.id f rows) lapsed)
      ],
    )

if_same : {A : Type 0} (b : Bool) (a : A) → (if b then a else a) ≡ a
if_same true a = refl
if_same false a = refl

online_refused :
    (p : Platform) (i : Instant) (key device : ℕ) (r : License) (rows : List License)
    → select (has_key (p.hash key)) rows ≡ r ∷ []
    → is_revoked r.status ≡ true
    → (activate_online p i key device rows ≡ (refused 403, rows))
      × (request_offline_activation p key device rows ≡ (refused 403, rows))
unfolding activate_online request_offline_activation
online_refused p i key device r rows one dead = rw one (rw dead (refl, refl))

file_refused :
    (p : Platform) (i : Instant) (venue device : ℕ) (r : License) (rows : List License)
    → find (has_id r.id) rows ≡ some r
    → is_revoked r.status ≡ true
    → create_offline_activation_file p i r.id venue device rows ≡ (refused 403, rows)
unfolding create_offline_activation_file
file_refused p i venue device r rows found dead =
    rw (create_offline_activation_file, found, dead)
      (if_same (not (r.venue_id == venue)) (refused 403, rows))

offline_refused :
    (p : Platform) (i : Instant) (file device : ℕ) (c : Claims) (r : License) (rows : List License)
    → p.decode i.seconds file ≡ some c
    → c.license_id ≡ some r.id
    → c.fingerprint ≡ some device
    → find (has_id r.id) rows ≡ some r
    → is_revoked r.status ≡ true
    → activate_offline p i file device rows ≡ (refused 403, rows)
unfolding activate_offline
offline_refused p i file device c r rows decoded names owner found dead =
    rw (activate_offline, decoded, names, owner, ==_refl device, found, dead)

revoke_license-rows :
    (i : Instant) (r : License) (rows : List License)
    → find (has_id r.id) rows ≡ some r
    → (revoke_license i r.id rows).1 ≡ write_row r.id (revoked_row i.stamp) rows
unfolding revoke_license
revoke_license-rows i r rows found = rw (revoke_license, found)

-- Once a licence is revoked, every path answers so and changes nothing.
pub revoke_license_lem :
    (p : Platform) (i j : Instant) (key device venue file : ℕ) (c : Claims) (r : License)
    (rows : List License)
    → select (has_key (p.hash key)) rows ≡ r ∷ []
    → find (has_id r.id) rows ≡ some r
    → p.decode j.seconds file ≡ some c
    → c.license_id ≡ some r.id
    → c.fingerprint ≡ some device
    → let after : List License = (revoke_license i r.id rows).1 in
      (activate_online p j key device after ≡ (refused 403, after))
      × (request_offline_activation p key device after ≡ (refused 403, after))
      × (create_offline_activation_file p j r.id venue device after ≡ (refused 403, after))
      × (activate_offline p j file device after ≡ (refused 403, after))
      × (check_license_status p j (some file) (some device) after
          ≡ (status_reply false revoked_label none, after))
revoke_license_lem p i j key device venue file c r rows one found decoded names owner =
    let f = revoked_row i.stamp in
    let by_id = find-update_where (has_id r.id) f (λ x. refl) rows r found in
    let by_key = select_key (p.hash key) f rows r (λ x. refl) one in
    let after = write_row r.id f rows in
    let online = online_refused p j key device (f r) after by_key refl in
    rw (revoke_license-rows i r rows found) (
      online.0,
      online.1,
      file_refused p j venue device (f r) after by_id refl,
      offline_refused p j file device c (f r) after decoded names owner by_id refl,
      check_known p j file r.id (some device) c (f r) after decoded names by_id,
    )

label_lem :
    (now e : ℕ) (r : License)
    → status_reply (is_ok (label_at now (some e) r)) (label_at now (some e) r) (some r.id)
      ≡ status_reply
          (leb now (grace_end e r))
          (if leb now e
            then valid_label
            else (if leb now (grace_end e r) then grace_label else expired_label))
          (some r.id)
label_lem now e r = elim (Bool-cases (leb now e)) [
  | inl early ↦ ground arith
  | inr late ↦ ground arith
]

-- For a licence that expires, the check answers by the time: valid up to the expiry, in grace for
-- the days of grace after it, and not ok from then on.
pub check_license_status_by_time :
    (p : Platform) (i : Instant) (file device e : ℕ) (c : Claims) (r : License)
    (rows : List License)
    → p.decode i.seconds file ≡ some c
    → c.license_id ≡ some r.id
    → find (has_id r.id) rows ≡ some r
    → is_revoked r.status ≡ false
    → r.fingerprint_hash ≡ some (p.hash device)
    → expiry p r ≡ some e
    → (check_license_status p i (some file) (some device) rows).0
      ≡ status_reply
          (leb i.seconds (e + get_or r.grace_days 0 * 86400))
          (if leb i.seconds e
            then valid_label
            else (if leb i.seconds (e + get_or r.grace_days 0 * 86400)
                then grace_label
                else expired_label))
          (some r.id)
check_license_status_by_time p i file device e c r rows decoded names found live bound expires =
    ap (λ (x : Reply × List License). x.0)
      (check_known p i file r.id (some device) c r rows decoded names found)
    ∙ rw live (rw bound (rw (==_refl (p.hash device)) (rw expires (label_lem i.seconds e r))))

-- A file for offline use binds the licence to the device that it is made for, and from then on
-- the device that the licence was bound to is refused.
pub create_offline_activation_file_moves :
    (p : Platform) (i j : Instant) (key device old : ℕ) (r : License) (rows : List License)
    → select (has_key (p.hash key)) rows ≡ r ∷ []
    → find (has_id r.id) rows ≡ some r
    → is_revoked r.status ≡ false
    → r.fingerprint_hash ≡ some (p.hash old)
    → (p.hash device == p.hash old) ≡ false
    → let after : List License =
        (create_offline_activation_file p i r.id r.venue_id device rows).1 in
      activate_online p j key old after ≡ (refused 409, after)
unfolding activate_online create_offline_activation_file
create_offline_activation_file_moves p i j key device old r rows one found live bound apart =
    let f = activated_row i.stamp (p.hash device) in
    let moved : create_offline_activation_file p i r.id r.venue_id device rows
        ≡ issue p i device r rows =
      rw (create_offline_activation_file, found, ==_refl r.venue_id, live) in
    rw (moved, select_key (p.hash key) f rows r (λ x. refl) one, apart)
