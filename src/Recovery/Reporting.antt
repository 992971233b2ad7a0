-- ===== src/Recovery/Reporting.antt =====
-- What `find_interrupted` reports.
use pudge_gaming_manager.Prelude.{
  ◌≡◌, refl, sym, ◌∙◌, ap, some-injective, In-map, In-of_map, In-select, In-of_select, true, some,
  List, [], ◌∷◌, map, In, inl, inr, ◌⊎◌, ◌↔◌, at_most, Bool-cases,
}
use pudge_gaming_manager.Tweak.{ok}
use pudge_gaming_manager.Session.{
  Session, Tables, BackupRow, BackupState, applying, applied, restored, not_confirmed, is_applying,
  execute,
}
use pudge_gaming_manager.Session.Inversion.{bind-ok, execute-ok}
use pudge_gaming_manager.Recovery.{
  InterruptedChange, interrupted, insert_by_time, order_by_time, pending, find_interrupted,
}

-- Ordering neither loses nor invents a row.
In-insert_by_time :
    (x row : BackupRow) (rows : List BackupRow)
    → (x ≡ row) ⊎ In x rows
    → In x (insert_by_time row rows)
unfolding insert_by_time
In-insert_by_time x row [] h = h
In-insert_by_time x row (r ∷ rows) h = elim (Bool-cases (at_most row.created_at r.created_at)) [
  | inl first ↦ rw first h
  | inr later ↦ rw later (elim h [
    | inl same ↦ inr (In-insert_by_time x row rows (inl same))
    | inr (inl here) ↦ inl here
    | inr (inr there) ↦ inr (In-insert_by_time x row rows (inr there))
  ])
]

In-of_insert_by_time :
    (x row : BackupRow) (rows : List BackupRow)
    → In x (insert_by_time row rows)
    → (x ≡ row) ⊎ In x rows
unfolding insert_by_time
In-of_insert_by_time x row [] h = h
In-of_insert_by_time x row (r ∷ rows) h = elim (Bool-cases (at_most row.created_at r.created_at)) [
  | inl first ↦ rw first at h
  | inr later ↦ second (rw later at h) (In-of_insert_by_time x row rows)
]
  where
    second :
        (x ≡ r) ⊎ In x (insert_by_time row rows)
        → (In x (insert_by_time row rows) → (x ≡ row) ⊎ In x rows)
        → (x ≡ row) ⊎ In x (r ∷ rows)
    second (inl here) ih = inr (inl here)
    second (inr there) ih = elim (ih there) [ inl same ↦ inl same | inr old ↦ inr (inr old) ]

In-order_by_time : (x : BackupRow) (rows : List BackupRow) → In x rows → In x (order_by_time rows)
unfolding order_by_time
In-order_by_time x [] h = absurd h
In-order_by_time x (row ∷ rows) (inl same) = In-insert_by_time x row _ (inl same)
In-order_by_time x (row ∷ rows) (inr h) =
    In-insert_by_time x row _ (inr (In-order_by_time x rows h))

In-of_order_by_time :
    (x : BackupRow) (rows : List BackupRow) → In x (order_by_time rows) → In x rows
unfolding order_by_time
In-of_order_by_time x [] h = absurd h
In-of_order_by_time x (row ∷ rows) h = elim (In-of_insert_by_time x row _ h) [
  | inl same ↦ inl same
  | inr old ↦ inr (In-of_order_by_time x rows old)
]

-- The report of a row: its names, and the value from before the change.
abbrev pub Reports : BackupRow → InterruptedChange → Type 0
Reports row c =
    (c.backup_id ≡ row.backup_id)
    × (c.tweak_id ≡ row.tweak_id)
    × (c.target ≡ row.target)
    × (c.old_value ≡ row.old_value)
    × (c.old_value_absent ≡ row.old_value_absent)
    × (c.started_at ≡ row.created_at)

-- A report of a row that is still in state APPLYING.
abbrev pub IsInterrupted : Tables → InterruptedChange → Type 0
IsInterrupted t c = (row : BackupRow) × In row t.backups × (row.state ≡ applying) × Reports row c

pub is_applying_iff : (state : BackupState) → is_applying state ≡ true ↔ state ≡ applying
unfolding is_applying
is_applying_iff applying = (λ _. refl, λ _. refl)
is_applying_iff applied = (λ e. cc e, λ e. cc e)
is_applying_iff restored = (λ e. cc e, λ e. cc e)
is_applying_iff not_confirmed = (λ e. cc e, λ e. cc e)

interrupted_of_Reports :
    (row : BackupRow) (c : InterruptedChange) → Reports row c → c ≡ interrupted row
unfolding interrupted
interrupted_of_Reports row c (a, b, d, e, f, g) = cc (a, b, d, e, f, g)

pub Reports-interrupted :
    (row : BackupRow) (c : InterruptedChange) → c ≡ interrupted row → Reports row c
unfolding interrupted
Reports-interrupted row c e = rw e (refl, refl, refl, refl, refl, refl)

reported :
    (t : Tables) (c : InterruptedChange)
    → In c (map interrupted (order_by_time (pending t))) ↔ IsInterrupted t c
unfolding pending
reported t c = (
  λ h.
      let (row, listed, e) = In-of_map interrupted c (order_by_time (pending t)) h in
      let (found, open_row) =
        In-of_select (λ (r : BackupRow). is_applying r.state) row t.backups
          (In-of_order_by_time row (pending t) listed) in
      (row, found, (is_applying_iff row.state).0 open_row, Reports-interrupted row c e),
  λ (row, found, open_state, same).
      let open_row = (is_applying_iff row.state).1 open_state in
      rw (interrupted_of_Reports row c same) (
        In-map interrupted row (order_by_time (pending t)) (
          In-order_by_time row (pending t)
            (In-select (λ (r : BackupRow). is_applying r.state) row t.backups found open_row))),
)

find_interrupted-ok :
    {M : Type 0} (s : Session M) {changes : List InterruptedChange}
    → (find_interrupted s).0 ≡ ok changes
    → (changes ≡ map interrupted (order_by_time (pending s.tables)))
      × ((find_interrupted s).1.tables ≡ s.tables)
unfolding find_interrupted
find_interrupted-ok s e =
    let (_, ran, rest) = bind-ok (execute (λ t. some t)) _ s e in
    let (u, same, left) = execute-ok (λ t. some t) s ran in
    let kept : (execute (λ t. some t) s).1.tables ≡ s.tables =
      left ∙ sym (some-injective s.tables u same) in
    (cc (ap (λ r. r.0) rest, e, kept), ap (λ r. r.1.tables) rest ∙ kept)

-- A query that returns lists exactly the changes whose row is still in state APPLYING, each with the
-- identifiers, the target, the time and the value from before the change that the row has, and leaves the tables as they are.
pub find_interrupted_lem :
    {M : Type 0} (s : Session M) {changes : List InterruptedChange}
    → (find_interrupted s).0 ≡ ok changes
    → ((c : InterruptedChange) → In c changes ↔ IsInterrupted s.tables c)
      × ((find_interrupted s).1.tables ≡ s.tables)
find_interrupted_lem s e =
    let (listed, kept) = find_interrupted-ok s e in (λ c. rw listed (reported s.tables c), kept)
