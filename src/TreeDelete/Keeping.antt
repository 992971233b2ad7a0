-- ===== src/TreeDelete/Keeping.antt =====
-- An invariant of the totals and of the calls, carried through the whole walk.
use pudge_gaming_manager.Prelude.{
  ◌≡◌, refl, ℕ, Bool, true, false, not, ◌&&◌, ◌||◌, Option, none, some, [], ◌∷◌, ◌++◌, ◌==◌,
  if◌then◌else◌,
}
use pudge_gaming_manager.TreeDelete.{
  Kernel, FilePath, Entry, is_link, is_dir, Tree, node, Trees, nil, cons, opened, listed, deleted,
  Walk, fail, note, count_link, count_file, count_directory, remove, delete_leaf, leaf, leaves,
  directory, finish, enter, subdirectory, subdirectories, child,
}

pub if_ind {ℓ} :
    {A : Type 0} (P : A → Type ℓ) (b : Bool) {x y : A}
    → (b ≡ true → P x)
    → (b ≡ false → P y)
    → P (if b then x else y)
if_ind P true f g = f refl
if_ind P false f g = g refl

-- What is counted of an entry.
pub data Kind : Type 0 where
  of_link of_directory : Kind
  of_file : ℕ → Kind

abbrev pub counting : Kind → Walk → Walk
counting of_link = count_link
counting of_directory = count_directory
counting (of_file size) = count_file size

pub log-counting : (kind : Kind) (w : Walk) → (counting kind w).log ≡ w.log
unfolding count_link count_file count_directory
log-counting of_link w = refl
log-counting of_directory w = refl
log-counting (of_file size) w = refl

-- `P` survives each step that the walk may take: a call with what its answer leads to.
pub record Steps (k : Kernel) (measure_only : Bool) (P : Walk → Type 0) : Type 0 where
  pub opens :
      (path : FilePath) (w : Walk)
      → (k.open_error path == 0) ≡ true
      → P w
      → P (note (opened path) w)
  pub open_fails :
      (path : FilePath) (w : Walk)
      → (k.open_error path == 0) ≡ false
      → P w
      → P (fail path (k.open_error path) (note (opened path) w))
  pub blind :
      (path : FilePath) (w : Walk)
      → (k.open_error path == 0) ≡ true
      → k.attributes path ≡ none
      → P w
      → P (fail path (k.attributes_error path) (note (opened path) w))
  pub lists :
      (path : FilePath) (a : ℕ) (w : Walk)
      → k.attributes path ≡ some a
      → is_link a ≡ false
      → k.list_error path ≡ none
      → P w
      → P (note (listed path) w)
  pub list_fails :
      (path : FilePath) (a error : ℕ) (w : Walk)
      → k.attributes path ≡ some a
      → is_link a ≡ false
      → k.list_error path ≡ some error
      → P w
      → P (fail path error (note (listed path) w))
  pub deletes :
      (path : FilePath) (kind : Kind) (w : Walk)
      → measure_only ≡ false
      → (k.delete_error path == 0) ≡ true
      → P w
      → P (counting kind (note (deleted path) w))
  pub delete_fails :
      (path : FilePath) (w : Walk)
      → measure_only ≡ false
      → (k.delete_error path == 0) ≡ false
      → P w
      → P (fail path (k.delete_error path) (note (deleted path) w))
  pub measures : (kind : Kind) (w : Walk) → measure_only ≡ true → P w → P (counting kind w)

-- `P` survives each call, each failure and each count, whatever led to it.
pub record Survives (k : Kernel) (measure_only : Bool) (P : Walk → Type 0) : Type 0 where
  pub fails : (path : FilePath) (error : ℕ) (w : Walk) → P w → P (fail path error w)
  pub opens : (path : FilePath) (w : Walk) → P w → P (note (opened path) w)
  pub lists :
      (path : FilePath) (a : ℕ) (w : Walk)
      → k.attributes path ≡ some a
      → is_link a ≡ false
      → P w
      → P (note (listed path) w)
  pub deletes :
      (path : FilePath) (w : Walk) → measure_only ≡ false → P w → P (note (deleted path) w)
  pub counts : (kind : Kind) (w : Walk) → P w → P (counting kind w)

pub each_step :
    {k : Kernel} {measure_only : Bool} {P : Walk → Type 0}
    → Survives k measure_only P
    → Steps k measure_only P
each_step keeps = record {
  opens = λ path w _ h. keeps.opens path w h;
  open_fails = λ path w _ h. keeps.fails path _ _ (keeps.opens path w h);
  blind = λ path w _ _ h. keeps.fails path _ _ (keeps.opens path w h);
  lists = λ path a w seen plain _ h. keeps.lists path a w seen plain h;
  list_fails =
      λ path a error w seen plain _ h. keeps.fails path error _ (keeps.lists path a w seen plain h);
  deletes = λ path kind w real _ h. keeps.counts kind _ (keeps.deletes path w real h);
  delete_fails = λ path w real _ h. keeps.fails path _ _ (keeps.deletes path w real h);
  measures = λ kind w _ h. keeps.counts kind w h;
}

module _ {k : Kernel} {measure_only : Bool} {P : Walk → Type 0}
    (keeps : Steps k measure_only P) where
  pub remove-keeps :
      (path : FilePath) (kind : Kind) (w : Walk)
      → measure_only ≡ false
      → P w
      → P (remove k measure_only path (counting kind) w)
  unfolding remove
  remove-keeps path kind w real h =
      if_ind P (k.delete_error path == 0) (λ e. keeps.deletes path kind w real e h)
        (λ e. keeps.delete_fails path w real e h)

  leaf-keeps : (parent : FilePath) (e : Entry) (w : Walk) → P w → P (leaf k measure_only parent e w)
  unfolding leaf delete_leaf
  leaf-keeps parent e w h =
      let path = parent ++ e.name ∷ [] in
      if_ind P measure_only
        (λ only.
          if_ind P (is_link e.attributes) (λ _. keeps.measures of_link w only h)
            (λ _. keeps.measures (of_file e.size) w only h))
        λ real.
          if_ind P (k.open_error path == 0)
            (λ e0.
              let g = keeps.opens path w e0 h in
              if_ind {A = Walk → Walk}
                (λ f. P (remove k measure_only path f (note (opened path) w)))
                (is_link e.attributes) (λ _. remove-keeps path of_link _ real g)
                (λ _. remove-keeps path (of_file e.size) _ real g))
            (λ e0. keeps.open_fails path w e0 h)

  leaves-keeps :
      (parent : FilePath) (ts : Trees) (w : Walk) → P w → P (leaves k measure_only parent ts w)
  unfolding leaves
  leaves-keeps parent nil w h = h
  leaves-keeps parent (cons (node e kids) ts) w h = leaves-keeps parent ts _ (
      if_ind P (is_link e.attributes || not (is_dir e.attributes)) (λ _. leaf-keeps parent e w h)
        (λ _. h))

  pub directory-keeps :
      (path : FilePath) (kids : Trees) (below : Walk → Walk) (a : ℕ) (w : Walk)
      → ((v : Walk) → P v → P (below v))
      → k.attributes path ≡ some a
      → is_link a ≡ false
      → P w
      → P (directory k measure_only path kids below w)
  unfolding directory
  directory-keeps path kids below a w each seen plain h = answered (k.list_error path) refl
    where
      answered :
          (r : Option ℕ)
          → k.list_error path ≡ r
          → P (elim r [
            | some error ↦ fail path error (note (listed path) w)
            | none ↦ below (leaves k measure_only path kids (note (listed path) w))
          ])
      answered (some error) e = keeps.list_fails path a error w seen plain e h
      answered none e = each _ (leaves-keeps path kids _ (keeps.lists path a w seen plain e h))

  enter-keeps :
      (path : FilePath) (kids : Trees) (below : Walk → Walk) (a : ℕ) (w : Walk)
      → ((v : Walk) → P v → P (below v))
      → k.attributes path ≡ some a
      → P w
      → P (enter k measure_only path kids below (some a) w)
  unfolding enter finish
  enter-keeps path kids below a w each seen h =
      if_ind P (is_link a)
        (λ _. if_ind P measure_only (λ _. h) (λ real. remove-keeps path of_link w real h))
        λ plain.
          let inside = directory-keeps path kids below a w each seen plain h in
          if_ind P measure_only (λ _. inside) (λ real. remove-keeps path of_directory _ real inside)

  subdirectory-keeps :
      (path : FilePath) (kids : Trees) (below : Walk → Walk) (w : Walk)
      → ((v : Walk) → P v → P (below v))
      → P w
      → P (subdirectory k measure_only path kids below w)
  unfolding subdirectory enter
  subdirectory-keeps path kids below w each h =
      if_ind P (k.open_error path == 0) (λ e. reports e (k.attributes path) refl)
        (λ e. keeps.open_fails path w e h)
    where
      reports :
          (k.open_error path == 0) ≡ true
          → (r : Option ℕ) → k.attributes path ≡ r
          → P (enter k measure_only path kids below r (note (opened path) w))
      reports e none seen = keeps.blind path w e seen h
      reports e (some a) seen = enter-keeps path kids below a _ each seen (keeps.opens path w e h)

  mutual
    unfolding subdirectories child

    pub subdirectories-keeps :
        (parent : FilePath) (ts : Trees) (w : Walk)
        → P w
        → P (subdirectories k measure_only parent ts w)
    subdirectories-keeps parent nil w h = h
    subdirectories-keeps parent (cons t ts) w h =
        subdirectories-keeps parent ts _ (child-keeps parent t w h)

    child-keeps :
        (parent : FilePath) (t : Tree) (w : Walk) → P w → P (child k measure_only parent t w)
    child-keeps parent (node e kids) w h =
        if_ind P (is_dir e.attributes && not (is_link e.attributes))
          (λ _.
            subdirectory-keeps (parent ++ e.name ∷ []) kids _ w
              (λ v g. subdirectories-keeps (parent ++ e.name ∷ []) kids v g) h)
          (λ _. h)
