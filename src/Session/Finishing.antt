-- ===== src/Session/Finishing.antt =====
-- Actions that return, on a database that commits every statement.
use pudge_gaming_manager.Prelude.{
  ◌≡◌, ◌≢◌, refl, ℕ, ◌+◌, Option, none, some, Bool, true, false, if◌then◌else◌,
}
use pudge_gaming_manager.Tweak.{Result, ok, raised, killed, Exception}
use pudge_gaming_manager.Session.{
  Session, Action, pure, gets, handle, after_result, try_except, ◌>>=◌, ◌>>◌, execute, settle,
  utc_now, Fate, commits, refuses, dies, Tables,
}

abbrev pub Commits : {M : Type 0} → Session M → Type 0
Commits s = (n : ℕ) → s.fates n ≡ commits

abbrev pub Finished : {M A : Type 0} → Result A × Session M → Type 0
Finished {M} {A} out = (a : A) × (out.0 ≡ ok a) × Commits out.1

pub record Finishes {M A : Type 0} (m : Action M A) : Type 0 where
  pub at : (s : Session M) → Commits s → Finished (m s)

module _ {M : Type 0} where
  pub Finishes-pure : {A : Type 0} (a : A) → Finishes {M = M} (pure a)
  Finishes-pure a = record { at = λ s c. (a, refl, c) }

  pub Finishes-gets : {A : Type 0} (f : Session M → A) → Finishes (gets f)
  Finishes-gets f = record { at = λ s c. (f s, refl, c) }

  after_result-Finished :
      {A B : Type 0} (r : Result A) (f : A → Action M B) (s : Session M)
      → Finished (r, s)
      → ((a : A) → Finishes (f a))
      → Finished (after_result r f s)
  after_result-Finished (ok a) f s (_, _, c) k = (k a).at s c
  after_result-Finished (raised e) f s (a, e', c) k = cc e'
  after_result-Finished killed f s (a, e', c) k = cc e'

  pub Finishes-bind :
      {A B : Type 0} {m : Action M A} {f : A → Action M B}
      → Finishes m
      → ((a : A) → Finishes (f a))
      → Finishes (m >>= f)
  Finishes-bind {m} {f} h k = record {
    at = λ s c. after_result-Finished (m s).0 f (m s).1 (h.at s c) k;
  }

  pub Finishes-then :
      {A B : Type 0} {m : Action M A} {n : Action M B} → Finishes m → Finishes n → Finishes (m >> n)
  Finishes-then {m} {n} h k = record {
    at = λ s c. after_result-Finished (m s).0 (λ _. n) (m s).1 (h.at s c) (λ _. k);
  }

  pub Finishes-if :
      {A : Type 0} (b : Bool) {m n : Action M A}
      → Finishes m
      → Finishes n
      → Finishes (if b then m else n)
  Finishes-if true h k = h
  Finishes-if false h k = k

  -- The block may raise, if it comes back.
  abbrev pub Returned : {A : Type 0} → Result A × Session M → Type 0
  Returned out = (out.0 ≢ killed) × Commits out.1

  pub try_except-Finishes :
      {A : Type 0} (m : Action M A) {handler : Exception → Action M A}
      → ((s : Session M) → Commits s → Returned (m s))
      → ((e : Exception) → Finishes (handler e))
      → Finishes (try_except m handler)
  try_except-Finishes {A} m {handler} h k = record { at = λ s c. handled (m s).0 (m s).1 (h s c) }
    where
      handled : (r : Result A) (t : Session M) → Returned (r, t) → Finished (handle r handler t)
      handled (ok a) t (_, c) = (a, refl, c)
      handled (raised e) t (_, c) = (k e).at t c
      handled killed t (alive, _) = absurd (alive refl)

  pub utc_now-Finishes : Finishes {M = M} utc_now
  unfolding utc_now
  utc_now-Finishes = record { at = λ s c. (s.clock s.ticks, refl, c) }

  settled :
      (fate : Fate) (written : Option Tables) (s : Session M)
      → fate ≡ commits
      → Commits s
      → Returned (settle fate written s)
        × ((u : Tables) → written ≡ some u → (settle fate written s).0 ≡ ok tt)
  settled commits (some u) s e c = (((λ k. cc k), c), λ _ _. refl)
  settled commits none s e c = (((λ k. cc k), c), λ u k. cc k)
  settled (refuses why) written s e c = cc e
  settled dies written s e c = cc e

  pub execute-Returned :
      (statement : Tables → Option Tables) (s : Session M)
      → Commits s
      → Returned (execute statement s)
  unfolding execute
  execute-Returned statement s c =
      (settled (s.fates s.statements) (statement s.tables)
        (record s { statements = s.statements + 1 }) (c s.statements) c).0

  pub execute-Finishes :
      (statement : Tables → Option Tables)
      → ((t : Tables) → (u : Tables) × (statement t ≡ some u))
      → Finishes {M = M} (execute statement)
  unfolding execute
  execute-Finishes statement total = record {
    at = λ s c.
        let (u, e) = total s.tables in
        let ((_, kept), done) =
          settled (s.fates s.statements) (statement s.tables)
            (record s { statements = s.statements + 1 }) (c s.statements) c in
        (tt, done u e, kept);
  }
