-- ===== src/Samples/Cleaning.antt =====
-- The theorems on the cleanup, at a folder with a temporary file and a private key.
use pudge_gaming_manager.Prelude.{
  ◌≡◌, ◌↔◌, refl, sym, ap, subst, ◌⊎◌, inl, inr, ℕ, ◌+◌, String, Bool, true, false, not, Option,
  none, some, List, [], ◌∷◌, ◌++◌, In, select, count, ◌is◌, if◌then◌else◌,
}
use pudge_gaming_manager.Samples.Scoring.{wholes}
use pudge_gaming_manager.Cleanup.{
  Reads, Category, Item, look_at, approve_items, component_is_protected, protected_path_fragments,
}
use pudge_gaming_manager.Cleanup.Waiving.{MatchesUnwaived, component_is_protected-MatchesUnwaived}
use pudge_gaming_manager.Cleanup.Approving.{
  may_delete, IsDeletable, approve_items-may_delete, approve_items-IsDeletable,
}

abbrev same : String → String
same s = s

component_is_protected-MatchesUnwaived_example :
    (component_is_protected same "battle.net" ("battle.net" ∷ []) ≡ true)
    ↔ MatchesUnwaived ("battle.net" ∷ []) "battle.net" protected_path_fragments
component_is_protected-MatchesUnwaived_example =
    component_is_protected-MatchesUnwaived same "battle.net" ("battle.net" ∷ [])

-- Paths are names in the folder `cache`.
abbrev extension : String → String
extension s = if s is "private.key" then ".key" else ".tmp"

abbrev cache : Reads wholes
cache = record {
  Location = String;
  key = λ p. p;
  parts = λ p. if p is "cache" then "cache" ∷ [] else "cache" ∷ p ∷ [];
  name = λ p. p;
  suffix = extension;
  parent = λ p. "cache";
  resolve = λ p. p;
  normcase = λ p. some p;
  modified = λ p. some 10;
}

abbrev temporary : Category wholes
temporary = record { min_age_hours = 0; clears_user_files = false; allowed_path_fragments = [] }

abbrev old_file : Item wholes cache
old_file = record { path = "old.tmp"; size_bytes = 5 }

abbrev key_file : Item wholes cache
key_file = record { path = "private.key"; size_bytes = 1 }

approve_items-may_delete_example :
    approve_items wholes cache same [] ("cache" ∷ []) temporary 20 (old_file ∷ key_file ∷ []) [] ≡ (
      select
          (may_delete wholes cache same [] ("cache" ∷ []) temporary 20)
          (old_file ∷ key_file ∷ []),
      count
          (λ i. not (may_delete wholes cache same [] ("cache" ∷ []) temporary 20 i))
          (old_file ∷ key_file ∷ []),
    )
approve_items-may_delete_example =
    approve_items-may_delete wholes cache same [] ("cache" ∷ []) temporary 20
      (old_file ∷ key_file ∷ [])
      (λ p q e. ap (look_at wholes cache same [] ("cache" ∷ []) temporary 20) e)

split :
    (item : Item wholes cache)
    → In item (old_file ∷ key_file ∷ [])
    → cache.parts item.path ≡ cache.parts (cache.parent item.path) ++ cache.name item.path ∷ []
split item (inl e) = rw e
split item (inr (inl e)) = rw e
split item (inr (inr h)) = absurd h

approve_items-IsDeletable_example :
    In old_file (old_file ∷ key_file ∷ [])
    × IsDeletable wholes cache same [] ("cache" ∷ []) temporary 20 old_file
unfolding approve_items pudge_gaming_manager.Cleanup.sort_out
    pudge_gaming_manager.Cleanup.approves_for_delete pudge_gaming_manager.Cleanup.with_known
    pudge_gaming_manager.Cleanup.find_known pudge_gaming_manager.Cleanup.passes
    pudge_gaming_manager.Cleanup.within pudge_gaming_manager.Cleanup.is_within look_at
    pudge_gaming_manager.Cleanup.is_protected component_is_protected
    pudge_gaming_manager.Cleanup.is_protected_name pudge_gaming_manager.Cleanup.waived_fragments
    pudge_gaming_manager.Cleanup.lowered pudge_gaming_manager.Cleanup.matches_any
    pudge_gaming_manager.Prelude.among protected_path_fragments
    pudge_gaming_manager.Cleanup.prefixes_of pudge_gaming_manager.Cleanup.fragment_separators
    pudge_gaming_manager.Prelude.starts_with pudge_gaming_manager.Cleanup.protected_extensions
    pudge_gaming_manager.Cleanup.credential_extensions pudge_gaming_manager.Cleanup.is_aged
approve_items-IsDeletable_example =
    approve_items-IsDeletable wholes cache same [] ("cache" ∷ []) temporary 20
      (old_file ∷ key_file ∷ [])
      (λ p q e. ap (look_at wholes cache same [] ("cache" ∷ []) temporary 20) e) split old_file
      (inl refl)
