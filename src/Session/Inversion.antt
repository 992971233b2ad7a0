-- ===== src/Session/Inversion.antt =====
-- What follows from how an action ended.
use pudge_gaming_manager.Prelude.{
  ◌≡◌, refl, sym, ap, subst, ◌∙◌, ◌⊎◌, inl, inr, ◌+◌, Option, none, some,
}
use pudge_gaming_manager.Tweak.{Result, ok, raised, killed, Exception, ok-injective}
use pudge_gaming_manager.Session.{
  Session, Action, after_result, handle, try_except, ◌>>=◌, ◌>>◌, pure, settle, execute, Fate,
  commits, refuses, dies, Tables,
}

after_result-ok :
    {M A B : Type 0} (r : Result A) (f : A → Action M B) (s : Session M) {b : B}
    → (after_result r f s).0 ≡ ok b
    → (a : A) × (r ≡ ok a) × (after_result r f s ≡ f a s)
after_result-ok (ok a) f s e = (a, refl, refl)
after_result-ok (raised x) f s e = cc
after_result-ok killed f s e = cc

-- A chain that returns has come through its first step.
pub bind-ok :
    {M A B : Type 0} (m : Action M A) (f : A → Action M B) (s : Session M) {b : B}
    → ((m >>= f) s).0 ≡ ok b
    → (a : A) × ((m s).0 ≡ ok a) × ((m >>= f) s ≡ f a (m s).1)
bind-ok m f s e = after_result-ok (m s).0 f (m s).1 e

handle-ok :
    {M A : Type 0} (r : Result A) (handler : Exception → Action M A) (s : Session M) {a : A}
    → (handle r handler s).0 ≡ ok a
    → (r ≡ ok a) × ((handle r handler s).1 ≡ s)
      ⊎ (x : Exception) × (r ≡ raised x) × (handle r handler s ≡ handler x s)
handle-ok (ok a) handler s e = inl (e, refl)
handle-ok (raised x) handler s e = inr (x, refl, refl)
handle-ok killed handler s e = cc

-- A guarded block that returns has returned, or its handler has.
pub try_except-ok :
    {M A : Type 0} (m : Action M A) (handler : Exception → Action M A) (s : Session M) {a : A}
    → (try_except m handler s).0 ≡ ok a
    → ((m s).0 ≡ ok a) × ((try_except m handler s).1 ≡ (m s).1)
      ⊎ ((x : Exception) × ((m s).0 ≡ raised x) × (try_except m handler s ≡ handler x (m s).1))
try_except-ok m handler s e = handle-ok (m s).0 handler (m s).1 e

settle-ok :
    {M : Type 0} (fate : Fate) (written : Option Tables) (s : Session M)
    → (settle fate written s).0 ≡ ok tt
    → (u : Tables) × (written ≡ some u) × ((settle fate written s).1.tables ≡ u)
settle-ok commits (some u) s e = (u, refl, refl)
settle-ok commits none s e = cc
settle-ok (refuses why) written s e = cc
settle-ok dies written s e = cc

-- A statement that returns has written its tables.
pub execute-ok :
    {M : Type 0} (statement : Tables → Option Tables) (s : Session M)
    → (execute statement s).0 ≡ ok tt
    → (u : Tables) × (statement s.tables ≡ some u) × ((execute statement s).1.tables ≡ u)
unfolding execute
execute-ok statement s e =
    settle-ok (s.fates s.statements) (statement s.tables)
      (record s { statements = s.statements + 1 }) e

-- Whatever the action returns satisfies `P`.
pub record Returns {M A : Type 0} (P : A → Type 0) (m : Action M A) : Type 0 where
  pub at : (s : Session M) (a : A) → (m s).0 ≡ ok a → P a

module _ {M : Type 0} where
  pub Returns-pure : {A : Type 0} (P : A → Type 0) (a : A) → P a → Returns {M = M} P (pure a)
  Returns-pure P a h = record { at = λ s b e. subst P (ok-injective e) h }

  pub Returns-then :
      {A B : Type 0} {P : B → Type 0} (m : Action M A) {n : Action M B}
      → Returns P n
      → Returns P (m >> n)
  Returns-then m {n} h = record {
    at = λ s b e.
        let (_, _, rest) = bind-ok m (λ _. n) s e in h.at (m s).1 b (ap (λ r. r.0) (sym rest) ∙ e);
  }
