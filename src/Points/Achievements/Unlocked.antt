-- ===== src/Points/Achievements/Unlocked.antt =====
-- When an achievement is unlocked, and that it stays so (app/core/points_service.py,
-- `get_achievements_for_singer`).
use scales_infrastructure.Prelude.{
  ℕ, ℤ, ◌≡◌, refl, ap, ◌∙◌, Bool, true, false, ◌&&◌, not, ◌||◌, pos, eqb_ℤ, is_none, Option, none,
  some, List, [], ◌∷◌, ◌++◌, is_some, leb_ℤ, find, update_where, Bool-cases, inl, inr, arith,
  if◌then◌else◌,
}
use scales_infrastructure.Models.Tables.{
  AchievementKey, first_song, iron_lungs, regular, big_spender, SingerAchievement, Tables,
}
use scales_infrastructure.Models.Session.{Clock, Session, Result, ok, err, gets, continue, ◌>>=◌}
use scales_infrastructure.Models.Session.Preserves.{Preserves, preserves_rules}
use scales_infrastructure.Points.Achievements.{
  row_of, progress_row, new_row, target_of, evaluate, write_rows, write_progress, achieve,
  get_achievements_for_singer,
}

-- A column of the first row that meets `p`.
abbrev pub first_value : {A : Type 0} → (A → Bool) → (A → Option ℕ) → List A → Option ℕ
first_value p u [] = none
first_value p u (r ∷ rows) = if p r then u r else first_value p u rows

module _ {A : Type 0} (p : A → Bool) (u : A → Option ℕ) (x : ℕ) where
  first_value-update :
      (q : A → Bool) (f : A → A)
      → ((r : A) → p (f r) ≡ p r)
      → ((r : A) → u r ≡ some x → u (f r) ≡ some x)
      → (rows : List A) → first_value p u rows ≡ some x
      → first_value p u (update_where q f rows) ≡ some x
  first_value-update q f same keep [] h = h
  first_value-update q f same keep (r ∷ rows) h =
      ground (arith, same r, keep r, first_value-update q f same keep rows)

  first_value-append :
      (rows : List A) (a : A)
      → first_value p u rows ≡ some x
      → first_value p u (rows ++ a ∷ []) ≡ some x
  first_value-append [] a h = absurd (ground arith)
  first_value-append (r ∷ rows) a h = ground (arith, first_value-append rows a)

-- When the singer unlocked an achievement.
abbrev pub unlocked_when : ℕ → ℕ → AchievementKey → List SingerAchievement → Option ℕ
unlocked_when v singer key = first_value (row_of v singer key) (λ r. r.unlocked_at)

module _ (v singer : ℕ) (j : AchievementKey) (x : ℕ) where
  abbrev IsUnlocked : Tables → Type 0
  IsUnlocked t = unlocked_when v singer j t.singer_achievements ≡ some x

  progress_row-unlocked :
      (now : ℕ) (current target : ℤ) (r : SingerAchievement)
      → r.unlocked_at ≡ some x
      → (progress_row now current target r).unlocked_at ≡ some x
  progress_row-unlocked now current target r h = rw h

  update-unlocked :
      (k : AchievementKey) (now : ℕ) (current target : ℤ) (rows : List SingerAchievement)
      → unlocked_when v singer j rows ≡ some x
      → unlocked_when v singer j
          (update_where (row_of v singer k) (progress_row now current target) rows)
        ≡ some x
  update-unlocked k now current target rows h =
      first_value-update (row_of v singer j) (λ r. r.unlocked_at) x (row_of v singer k)
        (progress_row now current target) (λ r. refl)
        (λ r. progress_row-unlocked now current target r) rows h

  append-unlocked :
      (rows : List SingerAchievement) (a : SingerAchievement)
      → unlocked_when v singer j rows ≡ some x
      → unlocked_when v singer j (rows ++ a ∷ []) ≡ some x
  append-unlocked rows a h = first_value-append (row_of v singer j) (λ r. r.unlocked_at) x rows a h

  write_rows-IsUnlocked :
      (f : List SingerAchievement → List SingerAchievement)
      → ((rows : List SingerAchievement)
          → unlocked_when v singer j rows ≡ some x
          → unlocked_when v singer j (f rows) ≡ some x)
      → Preserves IsUnlocked (write_rows f)
  unfolding ◌>>=◌
  write_rows-IsUnlocked f keep = record { run = λ s h. keep s.db.singer_achievements h }

  write_progress-IsUnlocked :
      (c : Clock) (key : AchievementKey) (current : ℤ) (row : Option SingerAchievement)
      → Preserves IsUnlocked (write_progress c v singer key current row)
  unfolding write_progress
  write_progress-IsUnlocked c key current none =
      search (preserves_rules, write_rows-IsUnlocked, append-unlocked) depth 20
  write_progress-IsUnlocked c key current (some r) =
      search (preserves_rules, write_rows-IsUnlocked, update-unlocked) depth 20

  achieve-IsUnlocked :
      (c : Clock) (key : AchievementKey) → Preserves IsUnlocked (achieve c v singer key)
  unfolding achieve
  achieve-IsUnlocked c key = search (preserves_rules, write_progress-IsUnlocked) depth 20

  all-IsUnlocked : (c : Clock) → Preserves IsUnlocked (get_achievements_for_singer c v singer)
  unfolding get_achievements_for_singer
  all-IsUnlocked c = search (preserves_rules, achieve-IsUnlocked) depth 20

-- An achievement that is unlocked stays so, with the time at which it was, whatever the singer's
-- progress has become.
pub get_achievements-unlocked :
    (c : Clock) (v singer : ℕ) (key : AchievementKey) (x : ℕ) (s : Session)
    → unlocked_when v singer key s.db.singer_achievements ≡ some x
    → unlocked_when v singer key (get_achievements_for_singer c v singer s).1.db.singer_achievements
      ≡ some x
get_achievements-unlocked c v singer key x s h = (all-IsUnlocked v singer key x c).run s h

module _ {A : Type 0} (p : A → Bool) (u : A → Option ℕ) where
  first_value-found : (rows : List A) (r : A) → find p rows ≡ some r → first_value p u rows ≡ u r
  first_value-found [] r h = absurd (ground arith)
  first_value-found (q ∷ rows) r h = elim (Bool-cases (p q)) [
    | inl hit ↦ ground (arith, hit, h)
    | inr miss ↦ ground (arith, miss, first_value-found rows r)
  ]

  first_value-missing : (rows : List A) → find p rows ≡ none → first_value p u rows ≡ none
  first_value-missing [] h = refl
  first_value-missing (q ∷ rows) h = ground (arith, first_value-missing rows)

  first_value-updated :
      (f : A → A)
      → ((r : A) → p (f r) ≡ p r)
      → (rows : List A) (r : A) → find p rows ≡ some r
      → first_value p u (update_where p f rows) ≡ u (f r)
  first_value-updated f same [] r h = absurd (ground arith)
  first_value-updated f same (q ∷ rows) r h =
      ground (arith, same q, first_value-updated f same rows r)

  first_value-appended :
      (rows : List A) (a : A)
      → find p rows ≡ none
      → p a ≡ true
      → first_value p u (rows ++ a ∷ []) ≡ u a
  first_value-appended [] a h hit = ground arith
  first_value-appended (q ∷ rows) a h hit = ground (arith, first_value-appended rows a)

new_row-own :
    (now v singer : ℕ) (key : AchievementKey) (current : ℤ)
    → row_of v singer key (new_row now v singer key current) ≡ true
new_row-own now v singer first_song current = ground arith
new_row-own now v singer iron_lungs current = ground arith
new_row-own now v singer regular current = ground arith
new_row-own now v singer big_spender current = ground arith

new_time : (b : Bool) (now : ℕ) → is_some (if b then some now else none) ≡ b
new_time true now = refl
new_time false now = refl

idle_new : (e b : Bool) → (e || b) ≡ false → false ≡ b
idle_new e b idle = ground arith

kept_time :
    (o : Option ℕ) (b : Bool) (now : ℕ)
    → is_some (if is_none o && b then some now else o) ≡ (is_some o || b)
kept_time none true now = refl
kept_time none false now = refl
kept_time (some x) b now = refl

idle_kept :
    (o : Option ℕ) (e b : Bool) → (e || (is_none o && b)) ≡ false → is_some o ≡ (is_some o || b)
idle_kept none e b idle = ground arith
idle_kept (some x) e b idle = refl

write_progress-unlocks :
    (c : Clock) (v singer : ℕ) (key : AchievementKey) (current : ℤ) (o : Option SingerAchievement)
    (s : Session)
    → find (row_of v singer key) s.db.singer_achievements ≡ o
    → is_some (
        unlocked_when v singer key
          (write_progress c v singer key current o s).1.db.singer_achievements)
      ≡ (is_some (unlocked_when v singer key s.db.singer_achievements)
          || leb_ℤ (target_of key) current)
unfolding write_progress ◌>>=◌
write_progress-unlocks c v singer key current none s found =
    let p = row_of v singer key in
    let u : SingerAchievement → Option ℕ = (λ r. r.unlocked_at) in
    let rows = s.db.singer_achievements in
    let before = first_value-missing p u rows found in
    let after =
      first_value-appended p u rows (new_row c.now v singer key current) found
        (new_row-own c.now v singer key current) in
    elim (Bool-cases (not (eqb_ℤ current (pos 0)) || leb_ℤ (target_of key) current)) [
      | inl writes ↦ rw (writes, after, before) (new_time (leb_ℤ (target_of key) current) c.now)
      | inr idle ↦ rw (idle, before) (idle_new _ (leb_ℤ (target_of key) current) idle)
    ]
write_progress-unlocks c v singer key current (some r) s found =
    let p = row_of v singer key in
    let u : SingerAchievement → Option ℕ = (λ r. r.unlocked_at) in
    let rows = s.db.singer_achievements in
    let f = progress_row c.now current (target_of key) in
    let before = first_value-found p u rows r found in
    let after = first_value-updated p u f (λ r. refl) rows r found in
    elim (Bool-cases (
      not (eqb_ℤ current r.progress) || (is_none r.unlocked_at && leb_ℤ (target_of key) current))) [
        | inl writes ↦
            rw (writes, after, before)
              (kept_time r.unlocked_at (leb_ℤ (target_of key) current) c.now)
        | inr idle ↦
            rw (idle, before) (idle_kept r.unlocked_at _ (leb_ℤ (target_of key) current) idle)
      ]

-- Reading at the end changes nothing.
gets_last :
    {A B : Type 0} (r : Result A) (f : Tables → B) (s : Session)
    → (continue r (λ _. gets f) s).1 ≡ s
unfolding ◌>>=◌
gets_last (ok a) f s = refl
gets_last (err e) f s = refl

-- After its pass, an achievement is unlocked if it was before, or the singer's progress meets its
-- target, and not otherwise.
pub achieve-unlocks :
    (c : Clock) (v singer : ℕ) (key : AchievementKey) (s : Session)
    → is_some (unlocked_when v singer key (achieve c v singer key s).1.db.singer_achievements) ≡ (
        is_some (unlocked_when v singer key s.db.singer_achievements)
        || leb_ℤ (target_of key) (evaluate v singer key s.db))
unfolding achieve ◌>>=◌
achieve-unlocks c v singer key s =
    let row = find (row_of v singer key) s.db.singer_achievements in
    let written = write_progress c v singer key (evaluate v singer key s.db) row s in
    ap (λ (s' : Session). is_some (unlocked_when v singer key s'.db.singer_achievements))
      (gets_last written.0 _ written.1)
    ∙ write_progress-unlocks c v singer key (evaluate v singer key s.db) row s refl
