-- ===== src/History/Listing.antt =====
-- `list_changes`: the rows of the table in the order of the query, up to its limit.
use pudge_gaming_manager.Prelude.{
  ◌≡◌, refl, sym, ap, ◌∙◌, subst, ◌⊎◌, inl, inr, ℕ, zero, suc, ◌+◌, min, true, false, some, Option,
  String, List, [], ◌∷◌, ◌++◌, map, append-nil, select, length, All, at_most, at_most_total,
  at_most_trans, ◌is◌, eq_iff, Bool-cases, if_ind, some-injective, arith,
}
use pudge_gaming_manager.Tweak.{ok, ok-injective}
use pudge_gaming_manager.Session.{Session, Tables, execute, BackupRow, TweakRow}
use pudge_gaming_manager.Session.Inversion.{bind-ok, execute-ok}
use pudge_gaming_manager.History.{
  ChangeRecord, record_of, insert_newest, newest_first, limited, query, list_changes,
}

abbrev NotNewer : BackupRow → BackupRow → Type 0
NotNewer row r = at_most r.created_at row.created_at ≡ true

-- No row is newer than one before it.
abbrev pub IsNewestFirst : List BackupRow → Type 0
IsNewestFirst [] = Unit
IsNewestFirst (row ∷ rows) = All (NotNewer row) rows × IsNewestFirst rows

-- The rows of one time, in their order.
abbrev pub at : String → List BackupRow → List BackupRow
at time rows = select (λ (r : BackupRow). r.created_at is time) rows

abbrev pub backwards : List BackupRow → List BackupRow
backwards [] = []
backwards (row ∷ rows) = backwards rows ++ row ∷ []

-- What is listed of a row, apart from the name of its tweak.
abbrev pub IsRecordOf : BackupRow → ChangeRecord → Type 0
IsRecordOf row c =
    (c.backup_id ≡ row.backup_id)
    × (c.tweak_id ≡ row.tweak_id)
    × (c.created_at ≡ row.created_at)
    × (c.scope ≡ row.scope)
    × (c.target ≡ row.target)
    × (c.old_value ≡ row.old_value)
    × (c.old_value_absent ≡ row.old_value_absent)
    × (c.old_value_kind ≡ row.old_value_kind)
    × (c.new_value ≡ row.new_value)
    × (c.state ≡ row.state)
    × (c.restored_at ≡ row.restored_at)

abbrev pub AreRecordsOf : List BackupRow → List ChangeRecord → Type 0
AreRecordsOf [] [] = Unit
AreRecordsOf (row ∷ rows) (c ∷ cs) = IsRecordOf row c × AreRecordsOf rows cs
AreRecordsOf [] (c ∷ cs) = ⊥
AreRecordsOf (row ∷ rows) [] = ⊥

-- The changes tell of the rows that are shown. These and the rest are the rows of the table, newest
-- first, and of the same time the one that stands later in the table first. As many are shown as
-- the limit allows.
pub record IsListing (t : Tables) (limit : ℕ) (changes : List ChangeRecord) : Type 0 where
  pub shown : List BackupRow
  pub rest : List BackupRow
  pub newest : IsNewestFirst (shown ++ rest)
  pub same_rows : (time : String) → at time (shown ++ rest) ≡ backwards (at time t.backups)
  pub as_many : length shown ≡ min limit (length t.backups)
  pub told : AreRecordsOf shown changes

All-insert_newest :
    (P : BackupRow → Type 0) (row : BackupRow) (rows : List BackupRow)
    → P row
    → All P rows
    → All P (insert_newest row rows)
unfolding insert_newest
All-insert_newest P row [] p h = (p, tt)
All-insert_newest P row (r ∷ rows) p (q, h) =
    if_ind (All P) (at_most row.created_at r.created_at)
      (λ _. (q, All-insert_newest P row rows p h)) (λ _. (p, (q, h)))

All-NotNewer :
    (row r : BackupRow) (rows : List BackupRow)
    → NotNewer row r
    → All (NotNewer r) rows
    → All (NotNewer row) rows
All-NotNewer row r [] e h = tt
All-NotNewer row r (x ∷ rows) e (p, h) =
    (at_most_trans x.created_at r.created_at row.created_at p e, All-NotNewer row r rows e h)

insert_newest-IsNewestFirst :
    (row : BackupRow) (rows : List BackupRow)
    → IsNewestFirst rows
    → IsNewestFirst (insert_newest row rows)
unfolding insert_newest
insert_newest-IsNewestFirst row [] h = (tt, tt)
insert_newest-IsNewestFirst row (r ∷ rows) (below, h) =
    if_ind IsNewestFirst (at_most row.created_at r.created_at)
      (λ early. (
        All-insert_newest (NotNewer r) row rows early below,
        insert_newest-IsNewestFirst row rows h,
      ))
      (λ late.
        let e = at_most_total row.created_at r.created_at late in
        ((e, All-NotNewer row r rows e below), (below, h)))

newest_first-IsNewestFirst : (rows : List BackupRow) → IsNewestFirst (newest_first rows)
unfolding newest_first
newest_first-IsNewestFirst [] = tt
newest_first-IsNewestFirst (row ∷ rows) =
    insert_newest-IsNewestFirst row _ (newest_first-IsNewestFirst rows)

-- No row of a newer time stands among rows that are older than it.
none_at :
    (row r : BackupRow) (rows : List BackupRow)
    → at_most row.created_at r.created_at ≡ false
    → All (NotNewer r) rows
    → at row.created_at rows ≡ []
none_at row r [] late h = refl
none_at row r (x ∷ rows) late (p, h) = elim (Bool-cases (x.created_at is row.created_at)) [
  | inr differs ↦ rw differs (none_at row r rows late h)
  | inl same ↦
      let e : x.created_at ≡ row.created_at = (eq_iff x.created_at row.created_at).0 same in
      absurd (cc (p, late, ap (λ t. at_most t r.created_at) e))
]

at_most_refl : (s : String) → at_most s s ≡ true
at_most_refl s = elim (Bool-cases (at_most s s)) [ inl e ↦ e | inr e ↦ at_most_total s s e ]

-- A row of the time is put behind those of the time that are there.
at-insert_newest :
    (time : String) (row : BackupRow) (rows : List BackupRow)
    → IsNewestFirst rows
    → at time (insert_newest row rows) ≡ at time rows ++ at time (row ∷ [])
unfolding insert_newest
at-insert_newest time row [] h = refl
at-insert_newest time row (r ∷ rows) (below, h) =
    elim (Bool-cases (at_most row.created_at r.created_at)) [
      | inl early ↦
          rw early (behind (at-insert_newest time row rows h) (Bool-cases (r.created_at is time)))
      | inr late ↦ rw late (alone late (Bool-cases (row.created_at is time)))
    ]
  where
    behind :
        at time (insert_newest row rows) ≡ at time rows ++ at time (row ∷ [])
        → (r.created_at is time ≡ true) ⊎ (r.created_at is time ≡ false)
        → at time (r ∷ insert_newest row rows) ≡ at time (r ∷ rows) ++ at time (row ∷ [])
    behind later (inl same) = rw same (ap (◌∷◌ r) later)
    behind later (inr differs) = rw differs later

    alone :
        at_most row.created_at r.created_at ≡ false
        → (row.created_at is time ≡ true) ⊎ (row.created_at is time ≡ false)
        → at time (row ∷ r ∷ rows) ≡ at time (r ∷ rows) ++ at time (row ∷ [])
    alone late (inr differs) = rw differs (sym (append-nil (at time (r ∷ rows))))
    alone late (inl same) =
        let e : row.created_at ≡ time = (eq_iff row.created_at time).0 same in
        let none_left : at time (r ∷ rows) ≡ [] =
          subst (λ t. at t (r ∷ rows) ≡ []) e
            (none_at row r (r ∷ rows) late (at_most_refl r.created_at, below)) in
        rw same (ap (◌∷◌ row) none_left ∙ sym (ap (λ rs. rs ++ row ∷ []) none_left))

at-newest_first :
    (time : String) (rows : List BackupRow) → at time (newest_first rows) ≡ backwards (at time rows)
unfolding newest_first
at-newest_first time [] = refl
at-newest_first time (row ∷ rows) =
    at-insert_newest time row (newest_first rows) (newest_first-IsNewestFirst rows)
    ∙ ap (λ rs. rs ++ at time (row ∷ [])) (at-newest_first time rows)
    ∙ last (Bool-cases (row.created_at is time))
  where
    last :
        (row.created_at is time ≡ true) ⊎ (row.created_at is time ≡ false)
        → backwards (at time rows) ++ at time (row ∷ []) ≡ backwards (at time (row ∷ rows))
    last (inl same) = rw same refl
    last (inr differs) = rw differs (append-nil (backwards (at time rows)))

length-insert_newest :
    (row : BackupRow) (rows : List BackupRow) → length (insert_newest row rows) ≡ length rows + 1
unfolding insert_newest
length-insert_newest row [] = refl
length-insert_newest row (r ∷ rows) = ground (arith, length-insert_newest row rows)

length-newest_first : (rows : List BackupRow) → length (newest_first rows) ≡ length rows
unfolding newest_first
length-newest_first [] = refl
length-newest_first (row ∷ rows) =
    omega (arith, length-insert_newest row (newest_first rows), length-newest_first rows)

limited-cut :
    (limit : ℕ) (rows : List BackupRow)
    → (rest : List BackupRow) × (limited limit rows ++ rest ≡ rows)
      × (length (limited limit rows) ≡ min limit (length rows))
unfolding limited
limited-cut zero rows = (rows, refl, omega arith)
limited-cut (suc n) [] = ([], refl, omega arith)
limited-cut (suc n) (row ∷ rows) =
    let (rest, whole, cut) = limited-cut n rows in (rest, ap (◌∷◌ row) whole, omega (arith, cut))

told_of :
    (catalogue : List TweakRow) (rows : List BackupRow)
    → AreRecordsOf rows (map (record_of catalogue) rows)
unfolding record_of
told_of catalogue [] = tt
told_of catalogue (row ∷ rows) =
    ((refl, refl, refl, refl, refl, refl, refl, refl, refl, refl, refl), told_of catalogue rows)

listing :
    (t : Tables) (limit : ℕ)
    → IsListing t limit (map (record_of t.tweaks) (limited limit (newest_first t.backups)))
listing t limit =
    let sorted = newest_first t.backups in
    let (rest, whole, cut) = limited-cut limit sorted in
    record {
      shown = limited limit sorted;
      rest = rest;
      newest = subst IsNewestFirst (sym whole) (newest_first-IsNewestFirst t.backups);
      same_rows = λ time. ap (at time) whole ∙ at-newest_first time t.backups;
      as_many = cut ∙ ap (min limit) (length-newest_first t.backups);
      told = told_of t.tweaks (limited limit sorted);
    }

module _ {M : Type 0} (digits : ℕ → String) (int : String → Option ℕ) where
  -- A query for the list that returns leaves the tables as they are. It lists the rows of the table,
  -- each once, newest first, of the same time the one that stands later in the table first; as many
  -- of them as the limit allows, from the newest on; and of each what the row has, apart from the name
  -- of its tweak.
  pub list_changes-IsListing :
      (limit : ℕ) (s : Session M) {changes : List ChangeRecord}
      → (list_changes digits int limit s).0 ≡ ok changes
      → IsListing s.tables limit changes × ((list_changes digits int limit s).1.tables ≡ s.tables)
  unfolding list_changes query
  list_changes-IsListing limit s {changes} e =
      let (_, ran, rest) = bind-ok (execute (λ t. some t)) _ s e in
      let (u, same, left) = execute-ok (λ t. some t) s ran in
      let kept : (execute (λ t. some t) s).1.tables ≡ s.tables =
        left ∙ sym (some-injective s.tables u same) in
      let listed : ok
            (map (record_of s.tables.tweaks) (limited limit (newest_first s.tables.backups)))
          ≡ ok changes =
        cc (ap (λ r. r.0) rest, e, kept) in
      (
        subst (IsListing s.tables limit) (ok-injective listed) (listing s.tables limit),
        ap (λ r. r.1.tables) rest ∙ kept,
      )
