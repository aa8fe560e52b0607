-- ===== src/Host/Snapshot/Lines.antt =====
-- What a snapshot of app/core/host_rotation_service.py, `upsert_snapshot`, and the rows have in
-- common, and counts of rows after an update of some of them.
use scales_infrastructure.Prelude.{
  ℕ, ◌+◌, ◌≤◌, ◌≡◌, refl, subst, Bool, true, false, not, ◌&&◌, Option, some, List, [], ◌∷◌, ◌++◌,
  map, String, ℤ, is_value, ◌==◌, any_of, count, select, update_where, arith, if◌then◌else◌,
}
use scales_infrastructure.Models.Tables.{Status, HostRotation}
use scales_infrastructure.Host.Snapshot.{SnapshotItem}

-- What a snapshot says of an item, and the table of a row.
pub record Line : Type 0 where
  pub id : Option ℕ
  pub singer_id : ℕ
  pub status : Status
  pub rotation_position : Option ℕ
  pub sort_order : Option ℕ
  pub notes : Option String
  pub reject_reason : Option String
  pub tempo : ℤ
  pub pitch : ℤ
  pub kj_id : Option String

abbrev pub line_with : Option ℕ → SnapshotItem → Line
line_with key i = record {
  id = key;
  singer_id = i.singer_id;
  status = i.status;
  rotation_position = i.rotation_position;
  sort_order = i.sort_order;
  notes = i.notes;
  reject_reason = i.reject_reason;
  tempo = i.tempo;
  pitch = i.pitch;
  kj_id = i.kj_id;
}

abbrev pub line_of_item : SnapshotItem → Line
line_of_item i = line_with i.id i

abbrev pub line_of_row : HostRotation → Line
line_of_row r = record {
  id = some r.id;
  singer_id = r.singer_id;
  status = r.status;
  rotation_position = r.rotation_position;
  sort_order = r.sort_order;
  notes = r.notes;
  reject_reason = r.reject_reason;
  tempo = r.tempo;
  pitch = r.pitch;
  kj_id = r.kj_id;
}

-- Every item has a key, which no later item has.
abbrev pub HasKeys : List SnapshotItem → Type 0
HasKeys [] = Unit
HasKeys (i ∷ is) =
    ((k : ℕ) × (i.id ≡ some k) × (any_of (λ (j : SnapshotItem). is_value j.id k) is ≡ false))
    × HasKeys is

module _ {A : Type 0} where
  -- An update of the rows of one key, where the others keep what is counted.
  pub count-update_one :
      (p q one at : A → Bool) (b : Bool) (f : A → A)
      → ((x : A) → one x ≡ true → (p (f x) ≡ (at x && b)) × (q x ≡ false))
      → ((x : A) → one x ≡ false → p x ≡ q x)
      → (xs : List A)
      → count p (update_where one f xs)
        ≡ (if b then count (λ x. one x && at x) xs else 0) + count q xs
  count-update_one p q one at b f hit miss [] = ground arith
  count-update_one p q one at b f hit miss (x ∷ xs) =
      ground (arith, hit x, miss x, count-update_one p q one at b f hit miss xs)

  pub count-same_off :
      (p q one : A → Bool)
      → ((x : A) → one x ≡ false → p x ≡ q x)
      → (xs : List A) → count one xs ≡ 0
      → count p xs ≡ count q xs
  count-same_off p q one miss [] h = refl
  count-same_off p q one miss (x ∷ xs) h = ground (arith, miss x, count-same_off p q one miss xs)

  pub any_of-update_where_same :
      (q one : A → Bool) (f : A → A)
      → ((x : A) → q (f x) ≡ q x)
      → (xs : List A) → any_of q (update_where one f xs) ≡ any_of q xs
  any_of-update_where_same q one f same [] = refl
  any_of-update_where_same q one f same (x ∷ xs) =
      ground (arith, same x, any_of-update_where_same q one f same xs)

  pub any_of-append_one :
      (q : A → Bool) (xs : List A) (a : A)
      → any_of q xs ≡ false
      → q a ≡ false
      → any_of q (xs ++ a ∷ []) ≡ false
  any_of-append_one q [] a h miss = ground arith
  any_of-append_one q (x ∷ xs) a h miss = ground (arith, any_of-append_one q xs a)

  pub count-any : (p : A → Bool) (xs : List A) → any_of p xs ≡ false → count p xs ≡ 0
  count-any p [] h = refl
  count-any p (x ∷ xs) h = ground (arith, count-any p xs)

  pub any_of→count : (p : A → Bool) (xs : List A) → any_of p xs ≡ true → 1 ≤ count p xs
  any_of→count p [] h = absurd (ground arith)
  any_of→count p (x ∷ xs) h = ground (arith, any_of→count p xs)

  -- An update that clears a condition wherever it held.
  pub count-cleared :
      (q one : A → Bool) (f : A → A)
      → ((x : A) → one x ≡ true → q (f x) ≡ false)
      → ((x : A) → one x ≡ false → q x ≡ false)
      → (xs : List A) → count q (update_where one f xs) ≡ 0
  count-cleared q one f hit miss [] = refl
  count-cleared q one f hit miss (x ∷ xs) =
      ground (arith, hit x, miss x, count-cleared q one f hit miss xs)

-- What is read off the selected rows, by a field and a condition that an update keeps.
pub map-select_updated :
    {A : Type 0} (q one : A → Bool) (f : A → A) (key : A → ℕ)
    → ((x : A) → q (f x) ≡ q x)
    → ((x : A) → key (f x) ≡ key x)
    → (xs : List A) → map key (select q (update_where one f xs)) ≡ map key (select q xs)
map-select_updated q one f key same kept [] = refl
map-select_updated q one f key same kept (x ∷ xs) =
    ground (arith, same x, kept x, map-select_updated q one f key same kept xs)

pub glue : (a x y z : Bool) → x ≡ y → z ≡ false → ((a && true) && x && not z) ≡ (a && y)
glue a x y z e h = ground arith

pub other_key :
    (k n : ℕ) (j : SnapshotItem) (is : List SnapshotItem)
    → j.id ≡ some n
    → any_of (λ (j : SnapshotItem). is_value j.id k) (j ∷ is) ≡ false
    → (k == n) ≡ false
other_key k n j is e later =
    let head : is_value j.id k ≡ false = ground arith in
    let apart : is_value (some n) k ≡ false = subst (λ o. is_value o k ≡ false) e head in
    ground arith
