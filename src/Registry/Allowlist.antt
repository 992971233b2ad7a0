-- ===== src/Registry/Allowlist.antt =====
-- The allowlist and the calls of `winreg` that change something.
use pudge_gaming_manager.Prelude.{
  ◌≡◌, inl, inr, ℕ, String, Bool, true, Option, none, some, List, [], ◌∷◌, All, Bool-cases,
  option_ind, arith,
}
use pudge_gaming_manager.Tweak.{Value, Result, ok, raised, killed}
use pudge_gaming_manager.Registry.{
  Winreg, Place, View, RegistryValue, Machine, Answer, got, missing, denied, broken, is_allowed_key,
  check_allowed, read, set_value, erase, written, write_typed, write, erased, delete_value,
  restored, done_with, restore, note, place_of, type_of_name,
}

-- A use of the manager.
pub data Request : Type 0 where
  reading deleting : Place → Request
  writing : Place → Value → (type_name : String) → (create_missing : Bool) → Request
  restoring : RegistryValue → View → Request

module _ (W : Winreg) (lower : String → String) (digits : ℕ → String) where
  abbrev pub serve : Request → Machine W → Machine W
  serve (reading p) m = (read W lower digits true p m).1
  serve (deleting p) m = (delete_value W lower digits true p m).1
  serve (writing p v t c) m = (write W lower digits true p v t c m).1
  serve (restoring b view) m = (restore W lower digits true b view m).1

  abbrev pub serve_all : List Request → Machine W → Machine W
  serve_all [] m = m
  serve_all (r ∷ rs) m = serve_all rs (serve r m)

  abbrev pub IsAllowed : Place → Type 0
  IsAllowed p = is_allowed_key lower p.hive p.subkey ≡ true

  abbrev Kept : {A : Type 0} → Result A × Machine W → Type 0
  Kept r = All IsAllowed r.1.touched

  unrefused : (p : Place) → check_allowed W lower digits true p ≡ none → IsAllowed p
  unfolding check_allowed
  unrefused p e = ground (arith, e)

  written-Kept :
      (p : Place) (v : Value) (a : Answer Unit) (m : Machine W)
      → All IsAllowed m.touched
      → Kept (written W lower digits true p v a m)
  unfolding written note
  written-Kept p v (got u) m h = h
  written-Kept p v missing m h = h
  written-Kept p v denied m h = h
  written-Kept p v (broken why) m h = h

  write_typed-Kept :
      (p : Place) (c : Bool) (v : Value) (t : String) (code : Option ℕ) (m : Machine W)
      → IsAllowed p
      → All IsAllowed m.touched
      → Kept (write_typed W lower digits true p c v t code m)
  unfolding write_typed set_value
  write_typed-Kept p c v t none m ok_ h = h
  write_typed-Kept p c v t (some code) m ok_ h = written-Kept p v _ _ (ok_, h)

  write-Kept :
      (p : Place) (v : Value) (t : String) (c : Bool) (m : Machine W)
      → All IsAllowed m.touched
      → Kept (write W lower digits true p v t c m)
  unfolding write
  write-Kept p v t c m h =
      option_ind Kept (check_allowed W lower digits true p)
        (λ same. write_typed-Kept p c v t (type_of_name t) m (unrefused p same) h) (λ e same. h)

  erased-Kept :
      (p : Place) (a : Answer Unit) (m : Machine W)
      → All IsAllowed m.touched
      → Kept (erased W lower digits true p a m)
  unfolding erased note
  erased-Kept p (got u) m h = h
  erased-Kept p missing m h = h
  erased-Kept p denied m h = h
  erased-Kept p (broken why) m h = h

  delete_value-Kept :
      (p : Place) (m : Machine W)
      → All IsAllowed m.touched
      → Kept (delete_value W lower digits true p m)
  unfolding delete_value erase
  delete_value-Kept p m h =
      option_ind Kept (check_allowed W lower digits true p)
        (λ same. erased-Kept p _ _ (unrefused p same, h)) (λ e same. h)

  restored-Kept :
      (target : String) (v : Value) (r : Result Unit × Machine W)
      → Kept r
      → Kept (restored W lower digits true target v r)
  unfolding restored note
  restored-Kept target v (ok u, m) h = h
  restored-Kept target v (raised e, m) h = h
  restored-Kept target v (killed, m) h = h

  done_with-Kept : (r : Result Bool × Machine W) → Kept r → Kept (done_with W lower digits true r)
  unfolding done_with
  done_with-Kept (ok u, m) h = h
  done_with-Kept (raised e, m) h = h
  done_with-Kept (killed, m) h = h

  serve-Kept :
      (r : Request) (m : Machine W) → All IsAllowed m.touched → All IsAllowed (serve r m).touched
  unfolding read restore place_of
  serve-Kept (reading p) m h = h
  serve-Kept (deleting p) m h = delete_value-Kept p m h
  serve-Kept (writing p v t c) m h = write-Kept p v t c m h
  serve-Kept (restoring b view) m h = elim (Bool-cases b.absent) [
    | inl e ↦ rw e (
        restored-Kept _ _ _
          (done_with-Kept _ (delete_value-Kept (place_of W lower digits true b view) m h)))
    | inr e ↦ rw e (
        restored-Kept _ _ _
          (write-Kept (place_of W lower digits true b view) b.data_ b.type_name true m h))
  ]

  -- While the allowlist is enforced, no use of the manager asks Windows to change or delete a value
  -- under a key that is not allowed, however the calls end.
  pub serve_all-IsAllowed :
      (rs : List Request) (m : Machine W)
      → All IsAllowed m.touched
      → All IsAllowed (serve_all rs m).touched
  serve_all-IsAllowed [] m h = h
  serve_all-IsAllowed (r ∷ rs) m h = serve_all-IsAllowed rs (serve r m) (serve-Kept r m h)
