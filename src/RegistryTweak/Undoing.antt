-- ===== src/RegistryTweak/Undoing.antt =====
-- The registry tweak and the engine's contract on rollbacks.
use Prim.Native.String.{String}
use pudge_gaming_manager.Prelude.{
  ◌≡◌, refl, sym, ap, subst, ◌∙◌, ℕ, Bool, true, some, or_text, arith,
}
use pudge_gaming_manager.Tweak.{
  Value, TweakState, BackupRecord, ApplyResult, is_success, Result, ok, ok-injective,
  default_drift_since_plan, raised, killed, pgm_error, other_error,
}
use pudge_gaming_manager.Registry.{
  Winreg, RegistryValue, Machine, Answer, got, missing, denied, broken, read, read_answer,
  found_value, absent_value, shown_type, delete_value, type_of_name,
}
use pudge_gaming_manager.Registry.Restoring.{
  IsRegistry, IsSupported, write-Reads, delete_value-Reads, shown_type-name,
}
use pudge_gaming_manager.RegistryTweak.{
  Spec, place, observed, backup_of, then_result, look, scan, backup, delete_old, put_back,
  check_back, rollback, registry_value_tweak,
}
use pudge_gaming_manager.Engine.Undoing.{Undoes}

-- A present value has a type that the program can write.
abbrev pub Fits : Answer (Value × ℕ) → Type 0
Fits x = (v : Value) (code : ℕ) → x ≡ got (v, code) → IsSupported code

or_text-type :
    (name other : String) (code : ℕ)
    → type_of_name name ≡ some code
    → type_of_name (or_text name other) ≡ some code
unfolding type_of_name
or_text-type String.[] other code e = absurd (ground (arith, e))
or_text-type (String.◌∷◌ c name) other code e = e

module _ (W : Winreg) (lower : String → String) (digits : ℕ → String) (enforce : Bool)
    (registry : IsRegistry W) (dry_run : Bool) (new_id : String) (repr : Value → String)
    (t : Spec) where
  -- What stands at the tweak's place.
  abbrev pub at_place : Machine W → Answer (Value × ℕ)
  at_place m = W.query (place t) m.keys

  check_back-same :
      (b : BackupRecord) (r : Result Unit × Machine W) (a : ApplyResult)
      → (check_back W lower digits enforce dry_run new_id repr t b r).0 ≡ ok a
      → is_success a.outcome ≡ true
      → (r.0 ≡ ok tt)
        × (at_place (check_back W lower digits enforce dry_run new_id repr t b r).1 ≡ at_place r.1)
  unfolding check_back look read
  check_back-same b (ok tt, m) a e good = (refl, refl)
  check_back-same b (raised (pgm_error what reason remedy), m) a e good =
      absurd (ground (arith, ap (λ (c : ApplyResult). is_success c.outcome) (ok-injective e), good))
  check_back-same b (raised (other_error message), m) a e good = cc e
  check_back-same b (killed, m) a e good = cc e

  abbrev BringsBack : Answer (Value × ℕ) → RegistryValue → Machine W → Type 0
  BringsBack x current m =
      (put_back W lower digits enforce dry_run new_id repr t (backup_of t new_id current) m).0
        ≡ ok tt
      → at_place
          (put_back W lower digits enforce dry_run new_id repr t (backup_of t new_id current) m).1
        ≡ x

  delete_old-Reads :
      (m : Machine W)
      → (delete_old W lower digits enforce dry_run new_id repr t m).0 ≡ ok tt
      → at_place (delete_old W lower digits enforce dry_run new_id repr t m).1 ≡ missing
  unfolding delete_old then_result
  delete_old-Reads m e =
      deleted (delete_value W lower digits enforce (place t) m).0
        (λ gone. delete_value-Reads W lower digits enforce registry (place t) m gone) e
    where
      deleted :
          (r : Result Bool)
          → ((gone : Bool)
              → r ≡ ok gone
              → at_place (delete_value W lower digits enforce (place t) m).1 ≡ missing)
          → then_result (λ _. tt) r ≡ ok tt
          → at_place (delete_value W lower digits enforce (place t) m).1 ≡ missing
      deleted (ok gone) h e = h gone refl
      deleted (raised exc) h e = absurd (ground (arith, e))
      deleted killed h e = absurd (ground (arith, e))

  put_back-Reads :
      (x : Answer (Value × ℕ)) (current : RegistryValue) (m : Machine W)
      → read_answer W lower digits enforce (place t) x ≡ ok current
      → Fits x
      → BringsBack x current m
  unfolding read_answer found_value absent_value backup_of observed put_back
  put_back-Reads (got (v, code)) current m held fits =
      subst (λ c. BringsBack (got (v, code)) c m) (ok-injective held)
        λ e.
          write-Reads W lower digits enforce registry (place t) v
            (or_text (or_text (shown_type W lower digits enforce code) t.value_type) t.value_type)
            true m code
            (or_text-type _ t.value_type code (
              or_text-type _ t.value_type code (
                shown_type-name W lower digits enforce registry (place t) code (fits v code refl))))
            tt e
  put_back-Reads missing current m held fits =
      subst (λ c. BringsBack missing c m) (ok-injective held) (delete_old-Reads m)
  put_back-Reads denied current m held fits = cc held
  put_back-Reads (broken why) current m held fits = cc held

  read_backup :
      (state : TweakState) (m : Machine W) (b : BackupRecord)
      → (backup W lower digits enforce dry_run new_id repr t state m).0 ≡ ok b
      → (current : RegistryValue) × (read_answer W lower digits enforce (place t) (at_place m)
          ≡ ok current)
        × (b ≡ backup_of t new_id current)
  unfolding backup look read then_result
  read_backup state m b e = found (read_answer W lower digits enforce (place t) (at_place m)) e
    where
      found :
          (r : Result RegistryValue)
          → then_result (backup_of t new_id) r ≡ ok b
          → (current : RegistryValue) × (r ≡ ok current) × (b ≡ backup_of t new_id current)
      found (ok current) same = (current, refl, sym (ok-injective same))
      found (raised exc) same = cc same
      found killed same = cc same

  -- The tweak on a registry value meets the engine's contract where Windows keeps what it accepts:
  -- reading again and taking the backup change nothing, and a rollback that reports success leaves
  -- at the tweak's place what the backup found there, its absence and its type included.
  pub registry_value_tweak-Undoes :
      Undoes at_place Fits (registry_value_tweak W lower digits enforce dry_run new_id repr t)
  unfolding registry_value_tweak default_drift_since_plan scan backup look read rollback
  registry_value_tweak-Undoes = record {
    drift_looks = λ state m. refl;
    backup_looks = λ state m. refl;
    brings_back = λ state before now b r fits taken returned good.
        let (current, held, is_b) = read_backup state before b taken in
        let (ran, same) =
          check_back-same b (put_back W lower digits enforce dry_run new_id repr t b now) r returned
            good in
        same
        ∙ subst
            (λ c.
              (put_back W lower digits enforce dry_run new_id repr t c now).0 ≡ ok tt
              → at_place (put_back W lower digits enforce dry_run new_id repr t c now).1
                ≡ at_place before)
            (sym is_b) (put_back-Reads (at_place before) current now held fits) ran;
  }
