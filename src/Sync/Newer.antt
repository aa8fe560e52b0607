-- ===== src/Sync/Newer.antt =====
-- What is newer on the server than the desktop knows stays (app/routers/kj_sync.py, `push_singers`).
use scales_infrastructure.Prelude.{
  ℕ, ◌≡◌, refl, ◌∙◌, ap, Bool, true, false, ◌&&◌, Option, none, some, List, [], ◌∷◌, ◌++◌, ◌==◌,
  ==_iff, get_or, find, update_where, Bool-cases, inl, inr, arith,
}
use scales_infrastructure.Models.Tables.{Singer, Tables}
use scales_infrastructure.Models.Session.{Clock, Session}
use scales_infrastructure.Models.Session.Flush.{written, flush}
use scales_infrastructure.Models.Session.Keeps.{
  Quiet, Quiet-bind, Quiet-read, Quiet-pure, Quiet-flush, Quiet-raise_if, Keeps-bind, Keeps-pure,
  Keeps-Quiet, Keeps-commit, quiet_rules,
}
use scales_infrastructure.Repair.{SyncSingerItem, Part}
use scales_infrastructure.Repair.Detect.{singer_at, is_newer}
use scales_infrastructure.Repair.Singers.{Texts, write_singer, drop_singer}
use scales_infrastructure.Sync.{
  require_venue_match, edited_singer, push_singer, push_singer_items, push_deletion, push_deletions,
  push_roster, push_singers,
}

abbrev pub singer_row : ℕ → List Singer → Option Singer
singer_row k = find (λ (r : Singer). r.id == k)

module _ {A : Type 0} (p : A → Bool) where
  find-append : (rows more : List A) (x : A) → find p rows ≡ some x → find p (rows ++ more) ≡ some x
  find-append [] more x h = absurd (ground arith)
  find-append (r ∷ rows) more x h = ground (arith, find-append rows more x)

  -- Where the found row meets a second condition, it is the first that meets both.
  find-both :
      (q : A → Bool) (rows : List A) (x : A)
      → find p rows ≡ some x
      → q x ≡ true
      → find (λ r. p r && q r) rows ≡ some x
  find-both q [] x h e = absurd (ground arith)
  find-both q (r ∷ rows) x h e = elim (Bool-cases (p r)) [
    | inl hit ↦
        let same : r ≡ x = ground (arith, hit, h) in
        let also : q r ≡ true = ap q same ∙ e in ground (arith, hit, also, h)
    | inr miss ↦ ground (arith, miss, h, find-both q rows x)
  ]

  find-update_other :
      (q : A → Bool) (f : A → A)
      → ((r : A) → p (f r) ≡ p r)
      → ((r : A) → q r ≡ true → p r ≡ false)
      → (rows : List A) → find p (update_where q f rows) ≡ find p rows
  find-update_other q f same apart [] = refl
  find-update_other q f same apart (r ∷ rows) =
      ground (arith, same r, apart r, find-update_other q f same apart rows)

module _ (v k : ℕ) (x : Singer) (modified : Option ℕ) (here : x.venue_id ≡ v)
    (newer : is_newer modified x.updated_at ≡ true) where
  abbrev pub IsRow : Tables → Type 0
  IsRow t = singer_row k t.singers ≡ some x

  flush-Quiet : Quiet IsRow flush
  unfolding written
  flush-Quiet = Quiet-flush (λ p t h. find-append _ t.singers p.singers x h)

  -- The row under the key is the newer one.
  row-newer :
      (j : ℕ) (t : Tables) → IsRow t → (j == k) ≡ true → find (singer_at v j) t.singers ≡ some x
  row-newer j t h e =
      ap (λ n. find (singer_at v n) t.singers) ((==_iff j k).0 e)
      ∙ find-both _ (λ (r : Singer). r.venue_id == v) t.singers x h (ground (arith, here))

  write-IsRow :
      (j : ℕ) (f : Singer → Singer)
      → ((r : Singer) → (f r).id ≡ r.id)
      → (j == k) ≡ false
      → (t : Tables) → IsRow t
      → IsRow (write_singer j f t)
  write-IsRow j f same_id apart t h =
      find-update_other _ (λ (r : Singer). r.id == j) f (λ r. ap (λ n. n == k) (same_id r))
        (λ r e. ap (λ n. n == k) ((==_iff r.id j).0 e) ∙ apart) t.singers
      ∙ h

  row_is_newer : (r : Singer) → some r ≡ some x → is_newer modified r.updated_at ≡ true
  row_is_newer r e =
      let q : r ≡ x = ground arith in ap (λ (z : Singer). is_newer modified z.updated_at) q ∙ newer

  push_singer-Quiet :
      (c : Clock) (texts : Texts) (item : SyncSingerItem) (row : Option Singer)
      → ((item.id == k) ≡ true → row ≡ some x)
      → Quiet IsRow (push_singer c texts v modified item row)
  unfolding push_singer
  push_singer-Quiet c texts item none same = search quiet_rules depth 20
  push_singer-Quiet c texts item (some r) same = elim (Bool-cases (item.id == k)) [
    | inl hit ↦ rw (row_is_newer r (same hit)) (Quiet-pure _)
    | inr miss ↦ search (quiet_rules, edit-IsRow miss) depth 20
  ]
    where
      edit-IsRow :
          (item.id == k) ≡ false
          → (t : Tables) → IsRow t
          → IsRow (write_singer item.id (edited_singer c.now item) t)
      edit-IsRow miss t h = write-IsRow item.id (edited_singer c.now item) (λ q. refl) miss t h

  push_singer_items-Quiet :
      (c : Clock) (texts : Texts) (items : List SyncSingerItem)
      → Quiet IsRow (push_singer_items c texts v modified items)
  unfolding push_singer_items
  push_singer_items-Quiet c texts [] = Quiet-pure _
  push_singer_items-Quiet c texts (item ∷ items) = Quiet-read _ _ (λ t h.
      Quiet-bind _ _ (push_singer-Quiet c texts item _ (row-newer item.id t h))
        (λ a. Quiet-bind _ _ (push_singer_items-Quiet c texts items) (λ b. Quiet-pure _)))

  push_deletion-Quiet :
      (c : Clock) (j : ℕ) (row : Option Singer)
      → ((j == k) ≡ true → row ≡ some x)
      → Quiet IsRow (push_deletion c modified j row)
  unfolding push_deletion
  push_deletion-Quiet c j none same = Quiet-pure _
  push_deletion-Quiet c j (some r) same = elim (Bool-cases (j == k)) [
    | inl hit ↦ rw (row_is_newer r (same hit)) (Quiet-pure _)
    | inr miss ↦ search (quiet_rules, drop-IsRow miss) depth 20
  ]
    where
      drop-IsRow :
          (j == k) ≡ false → (t : Tables) → IsRow t → IsRow (write_singer j (drop_singer c.now) t)
      drop-IsRow miss t h = write-IsRow j (drop_singer c.now) (λ q. refl) miss t h

  push_deletions-Quiet : (c : Clock) (ks : List ℕ) → Quiet IsRow (push_deletions c v modified ks)
  unfolding push_deletions
  push_deletions-Quiet c [] = Quiet-pure _
  push_deletions-Quiet c (j ∷ ks) = Quiet-read _ _ (λ t h.
      Quiet-bind _ _ (push_deletion-Quiet c j _ (row-newer j t h))
        (λ a. Quiet-bind _ _ (push_deletions-Quiet c ks) (λ b. Quiet-pure _)))

push_roster-Quiet :
    (v k : ℕ) (x : Singer) (body : Part SyncSingerItem)
    → x.venue_id ≡ v
    → is_newer body.last_modified_at x.updated_at ≡ true
    → (c : Clock) (texts : Texts)
    → Quiet (λ t. singer_row k t.singers ≡ some x) (push_roster c texts v body)
unfolding push_roster
push_roster-Quiet v k x body here newer c texts =
    Quiet-bind _ _
      (push_singer_items-Quiet v k x body.last_modified_at here newer c texts body.items)
      (λ a.
        Quiet-bind _ _
          (push_deletions-Quiet v k x body.last_modified_at here newer c body.deleted_ids)
          (λ b.
            Quiet-bind _ _ (flush-Quiet v k x body.last_modified_at here newer)
              (λ d. Quiet-pure _)))

-- A singer's row that is newer than what the client last saw stays as it was in a push to its venue,
-- edits and deletions included, in the session and durably, whether the push succeeds or fails.
pub push_singers-newer :
    (c : Clock) (texts : Texts) (venue : Option ℕ) (current : ℕ) (body : Part SyncSingerItem)
    (k : ℕ) (x : Singer) (s : Session)
    → x.venue_id ≡ get_or venue current
    → is_newer body.last_modified_at x.updated_at ≡ true
    → singer_row k s.db.singers ≡ some x
    → singer_row k s.committed.singers ≡ some x
    → (let s' = (push_singers c texts venue current body s).1 in
        (singer_row k s'.db.singers ≡ some x) × (singer_row k s'.committed.singers ≡ some x))
unfolding push_singers require_venue_match
push_singers-newer c texts venue current body k x s here newer h g =
    (Keeps-bind _ _ (Keeps-Quiet _ (Quiet-raise_if _ _)) (λ a.
        Keeps-bind _ _
          (Keeps-Quiet _ (push_roster-Quiet (get_or venue current) k x body here newer c texts))
          (λ b. Keeps-bind _ _ Keeps-commit (λ d. Keeps-pure _)))).run
      s h g
