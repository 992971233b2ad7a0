-- ===== src/Cleanup/Approving.antt =====
-- The gate with its cache, and the gate without one.
use pudge_gaming_manager.Prelude.{
  ◌≡◌, refl, sym, ap, subst, ◌∙◌, ℕ, ◌+◌, String, Bool, true, false, not, ◌||◌, Option, none, some,
  some-injective, List, [], ◌∷◌, ◌++◌, select, count, any, among, In, In-of_select, ◌is◌, eq_iff,
  if_ind, arith, if◌then◌else◌,
}
use pudge_gaming_manager.Floats.{Floats}
use pudge_gaming_manager.Cleanup.{
  Reads, Category, Item, Known, Cache, find_known, within, waived_fragments, is_protected,
  component_is_protected, protected_extensions, is_aged, look_at, passes, with_known,
  approves_for_delete, sort_out, approve_items,
}

gate-true :
    (a b c d : Bool)
    → (if not a then false else if b then false else if c then false else d) ≡ true
    → (a ≡ true) × (b ≡ false) × (c ≡ false) × (d ≡ true)
gate-true true false false d e = (refl, refl, refl, e)
gate-true true false true d e = cc e
gate-true true true c d e = cc e
gate-true false b c d e = cc e

guard-false :
    (a b c : Bool)
    → (if a then true else if b then true else c) ≡ false
    → (a ≡ false) × (b ≡ false) × (c ≡ false)
guard-false false false c e = (refl, refl, e)
guard-false false true c e = cc e
guard-false true b c e = cc e

or-false : (a b : Bool) → a || b ≡ false → (a ≡ false) × (b ≡ false)
or-false false b e = (refl, e)
or-false true b e = cc e

module _ (F : Floats) (D : Reads F) (lower : String → String)
    (protected_roots roots : List D.Location) (category : Category F) (now : F.F) where
  -- Paths that are equal to pathlib answer alike.
  abbrev pub RespectsKeys : Type 0
  RespectsKeys =
      (p q : D.Location)
      → D.key p ≡ D.key q
      → look_at F D lower protected_roots roots category now p
        ≡ look_at F D lower protected_roots roots category now q

  -- Each entry of the cache is what is known of the parents with its key.
  abbrev IsTrue : Cache F D → Type 0
  IsTrue cache =
      (p : D.Location) (known : Known F D)
      → find_known (D.key p) cache ≡ some known
      → known ≡ look_at F D lower protected_roots roots category now p

  -- The gate without the cache.
  abbrev pub may_delete : Item F D → Bool
  may_delete item =
      passes F D lower protected_roots roots category now item.path
        (look_at F D lower protected_roots roots category now (D.parent item.path))

  grown-IsTrue :
      (respects : RespectsKeys) (p : D.Location) (cache : Cache F D)
      → IsTrue cache
      → IsTrue ((D.key p, look_at F D lower protected_roots roots category now p) ∷ cache)
  unfolding find_known
  grown-IsTrue respects p cache h q known =
      if_ind
        (λ (o : Option (Known F D)).
          o ≡ some known → known ≡ look_at F D lower protected_roots roots category now q)
        (D.key p is D.key q)
        (λ same e.
          sym (some-injective _ known e) ∙ respects p q ((eq_iff (D.key p) (D.key q)).0 same))
        (λ _. h q known)

  with_known-may_delete :
      (respects : RespectsKeys) (item : Item F D) (cache : Cache F D) (o : Option (Known F D))
      → IsTrue cache
      → find_known (D.key (D.parent item.path)) cache ≡ o
      → ((with_known F D lower protected_roots roots category now item.path cache o).0
          ≡ may_delete item)
        × IsTrue (with_known F D lower protected_roots roots category now item.path cache o).1
  unfolding with_known
  with_known-may_delete respects item cache (some known) h e = (
    ap (passes F D lower protected_roots roots category now item.path)
        (h (D.parent item.path) known e),
    h,
  )
  with_known-may_delete respects item cache none h e =
      (refl, grown-IsTrue respects (D.parent item.path) cache h)

  sorted :
      (item : Item F D) (b : Bool) (items : List (Item F D))
      → sort_out F D lower protected_roots roots category now item b
          (select may_delete items, count (λ i. not (may_delete i)) items)
        ≡ (
          if b then item ∷ select may_delete items else select may_delete items,
          (if not b then 1 else 0) + count (λ i. not (may_delete i)) items,
        )
  unfolding sort_out
  sorted item true items = ap (λ n. (item ∷ select may_delete items, n)) (omega arith)
  sorted item false items = ap (λ n. (select may_delete items, n)) (omega arith)

  approve_from :
      (respects : RespectsKeys) (items : List (Item F D)) (cache : Cache F D)
      → IsTrue cache
      → approve_items F D lower protected_roots roots category now items cache
        ≡ (select may_delete items, count (λ i. not (may_delete i)) items)
  unfolding approve_items approves_for_delete
  approve_from respects [] cache h = refl
  approve_from respects (item ∷ items) cache h =
      let o = find_known (D.key (D.parent item.path)) cache in
      let (same, kept) = with_known-may_delete respects item cache o h refl in
      let rest =
        approve_from respects items
          (with_known F D lower protected_roots roots category now item.path cache o).1 kept in
      let known = with_known F D lower protected_roots roots category now item.path cache o in
      ap (sort_out F D lower protected_roots roots category now item known.0) rest
      ∙ ap
          (λ b.
            sort_out F D lower protected_roots roots category now item b
              (select may_delete items, count (λ i. not (may_delete i)) items))
          same
      ∙ sorted item (may_delete item) items

  -- If paths that are equal to pathlib answer alike, the loop with its cache of parents approves, in
  -- order, exactly the items that pass the gate without a cache, and counts the others as refused.
  pub approve_items-may_delete :
      (items : List (Item F D))
      → RespectsKeys
      → approve_items F D lower protected_roots roots category now items []
        ≡ (select may_delete items, count (λ i. not (may_delete i)) items)
  unfolding find_known
  approve_items-may_delete items respects = approve_from respects items [] (λ p known e. cc e)

  -- What the guards say of an item: its directory is, resolved, in a root of the category; no component
  -- of its path is protected; it is under no protected root; its extension is not protected; and it is
  -- old enough.
  abbrev pub IsDeletable : Item F D → Type 0
  IsDeletable item =
      (any (within F D lower protected_roots (D.resolve (D.parent item.path))) roots ≡ true)
      × (any
            (λ part.
              component_is_protected lower part
                (waived_fragments F D lower protected_roots category))
            (D.parts item.path)
          ≡ false)
      × (any (within F D lower protected_roots (D.parent item.path)) protected_roots ≡ false)
      × (among (lower (D.suffix item.path)) (protected_extensions category.clears_user_files)
          ≡ false)
      × (is_aged F D lower protected_roots roots category now item.path ≡ true)

  any-append :
      (p : String → Bool) (xs : List String) (x : String)
      → any p xs ≡ false
      → p x ≡ false
      → any p (xs ++ x ∷ []) ≡ false
  any-append p [] x e f = rw f
  any-append p (y ∷ xs) x e f = ground (arith, e, any-append p xs x, f)

  passes-IsDeletable :
      (item : Item F D)
      → D.parts item.path ≡ D.parts (D.parent item.path) ++ D.name item.path ∷ []
      → may_delete item ≡ true
      → IsDeletable item
  unfolding passes look_at is_protected
  passes-IsDeletable item split e =
      let (inside, parent, own, aged) = gate-true _ _ _ _ e in
      let (above, _, outside) = guard-false _ _ _ parent in
      let (named, extension) = or-false _ _ own in
      (
        inside,
        subst
            (λ parts.
              any
                (λ part.
                  component_is_protected lower part
                    (waived_fragments F D lower protected_roots category))
                parts
              ≡ false)
            (sym split)
            (any-append
              (λ part.
                component_is_protected lower part
                  (waived_fragments F D lower protected_roots category))
              (D.parts (D.parent item.path)) (D.name item.path) above named),
        outside,
        extension,
        aged,
      )

  -- Every item that the loop approves is one of those that it was given and satisfies the guards, if
  -- paths that are equal to pathlib answer alike and the components of each item's path are those of
  -- its parent and its name.
  pub approve_items-IsDeletable :
      (items : List (Item F D))
      → RespectsKeys
      → ((item : Item F D)
          → In item items
          → D.parts item.path ≡ D.parts (D.parent item.path) ++ D.name item.path ∷ [])
      → (item : Item F D)
      → In item (approve_items F D lower protected_roots roots category now items []).0
      → In item items × IsDeletable item
  approve_items-IsDeletable items respects split item approved =
      let (listed, passed) = In-of_select may_delete item items (
        subst (λ (r : List (Item F D) × ℕ). In item r.0) (approve_items-may_delete items respects)
          approved) in
      (listed, passes-IsDeletable item (split item listed) passed)
