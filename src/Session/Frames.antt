-- ===== src/Session/Frames.antt =====
-- What an action may change. A frame is a reflexive and transitive relation between the session
-- before and after; `Keeps R m` says that the action `m` stays within it, however it ends.
use pudge_gaming_manager.Prelude.{◌≡◌, refl, Bool, true, false, if◌then◌else◌}
use pudge_gaming_manager.Tweak.{Result, ok, raised, killed, Exception}
use pudge_gaming_manager.Session.{
  Session, Action, pure, try_except, handle, after_result, ◌>>=◌, ◌>>◌, gets,
}

pub record IsFrame {M : Type 0} (R : Session M → Session M → Type 0) : Type 0 where
  pub stay : (s : Session M) → R s s
  pub then_by : {s t u : Session M} → R s t → R t u → R s u

pub record Keeps {M A : Type 0} (R : Session M → Session M → Type 0) (m : Action M A) : Type 0 where
  pub at : (s : Session M) → R s (m s).1

module _ {M : Type 0} {R : Session M → Session M → Type 0} (frame : IsFrame R) where
  pub Keeps-pure : {A : Type 0} (a : A) → Keeps R (pure a)
  Keeps-pure a = record { at = λ s. frame.stay s }

  pub Keeps-gets : {A : Type 0} (f : Session M → A) → Keeps R (gets f)
  Keeps-gets f = record { at = λ s. frame.stay s }

  after_result_at :
      {A B : Type 0} (r : Result A) (f : A → Action M B) (s : Session M)
      → ((a : A) → r ≡ ok a → R s (f a s).1)
      → R s (after_result r f s).1
  after_result_at (ok a) f s h = h a refl
  after_result_at (raised e) f s h = frame.stay s
  after_result_at killed f s h = frame.stay s

  handle_at :
      {A : Type 0} (r : Result A) (handler : Exception → Action M A) (s : Session M)
      → ((e : Exception) → r ≡ raised e → R s (handler e s).1)
      → R s (handle r handler s).1
  handle_at (ok a) handler s h = frame.stay s
  handle_at (raised e) handler s h = h e refl
  handle_at killed handler s h = frame.stay s

  -- The rules at one starting session, for an action that is safe only there.
  pub bind_at :
      {A B : Type 0} (m : Action M A) (f : A → Action M B) (s : Session M)
      → R s (m s).1
      → ((a : A) → (m s).0 ≡ ok a → R (m s).1 (f a (m s).1).1)
      → R s ((m >>= f) s).1
  bind_at m f s h k = frame.then_by h (after_result_at (m s).0 f (m s).1 k)

  pub try_except_at :
      {A : Type 0} (m : Action M A) (handler : Exception → Action M A) (s : Session M)
      → R s (m s).1
      → ((e : Exception) → (m s).0 ≡ raised e → R (m s).1 (handler e (m s).1).1)
      → R s (try_except m handler s).1
  try_except_at m handler s h k = frame.then_by h (handle_at (m s).0 handler (m s).1 k)

  pub Keeps-bind :
      {A B : Type 0} {m : Action M A} {f : A → Action M B}
      → Keeps R m
      → ((a : A) → Keeps R (f a))
      → Keeps R (m >>= f)
  Keeps-bind {m} {f} h k = record { at = λ s. bind_at m f s (h.at s) (λ a _. (k a).at (m s).1) }

  pub Keeps-then :
      {A B : Type 0} {m : Action M A} {n : Action M B} → Keeps R m → Keeps R n → Keeps R (m >> n)
  Keeps-then {m} {n} h k = record { at = λ s. bind_at m (λ _. n) s (h.at s) (λ _ _. k.at (m s).1) }

  pub Keeps-try_except :
      {A : Type 0} {m : Action M A} {handler : Exception → Action M A}
      → Keeps R m
      → ((e : Exception) → Keeps R (handler e))
      → Keeps R (try_except m handler)
  Keeps-try_except {m} {handler} h k = record {
    at = λ s. try_except_at m handler s (h.at s) (λ e _. (k e).at (m s).1);
  }

  pub Keeps-if :
      {A : Type 0} (b : Bool) {m n : Action M A}
      → Keeps R m
      → Keeps R n
      → Keeps R (if b then m else n)
  Keeps-if true h k = h
  Keeps-if false h k = k
