-- ===== src/Hosts/Setting.antt =====
-- Setting the block and reading it back, and setting it again.
use pudge_gaming_manager.Prelude.{
  ◌≡◌, refl, sym, ap, ◌∙◌, Bool, true, false, Option, none, some, List, [], ◌∷◌, ◌++◌, map, All,
  Text, some-injective,
}
use pudge_gaming_manager.Hosts.{
  lstrip, rstrip, find, begin_marker, newline, cut_block, split_at, split, is_empty, begins,
  hosts_in, entry, rebuild, rewritten, ended, is_eol, HostsFile, Machine, set_block, store_block,
  write_block, blocked_in, blocked_hosts, find, end_marker, strip, is_comment,
}
use pudge_gaming_manager.Hosts.Finding.{find-prefix, find-first, before_of}
use pudge_gaming_manager.Hosts.Reading.{IsHost}
use pudge_gaming_manager.Hosts.Rewriting.{split-rebuild, lead, hosts_in-entries}
use pudge_gaming_manager.Hosts.Stripping.{
  rstrip_idem, rstrip-splits, rstrip-lead, ended_idem, lstrip-ended, lstrip-newline,
}

cut_block-before :
    (before from : Text) (o : Option (Text × Text)) → (cut_block before from o).before ≡ before
unfolding cut_block
cut_block-before before from none = refl
cut_block-before before from (some (m, r)) = refl

-- What stands before the block holds no marker.
before-free : (text : Text) → find begin_marker (split text).before ≡ none
unfolding split split_at begins begin_marker
before-free text = found (find begin_marker text) refl (find-first begin_marker refl text)
  where
    found :
        (o : Option (Text × Text))
        → find begin_marker text ≡ o
        → find begin_marker (before_of o) ≡ none
        → find begin_marker (split_at text o).before ≡ none
    found none e free = e
    found (some (b, f)) e free = rw (cut_block-before b f (find end_marker f)) free

kept-free : (text : Text) → find begin_marker (rstrip is_eol (split text).before) ≡ none
kept-free text =
    let (rest, same) = rstrip-splits is_eol (split text).before in
    find-prefix begin_marker (rstrip is_eol (split text).before) rest
      (ap (find begin_marker) (sym same) ∙ before-free text)

rebuild-ended :
    (hosts : List Text) (before after : Text)
    → rebuild hosts before (ended after) ≡ rebuild hosts before after
unfolding rebuild
rebuild-ended [] before after = rw (ended_idem after)
rebuild-ended (name ∷ names) before after = rw (ended_idem after)

module _ (name : Text) (names : List Text) (good : All IsHost (name ∷ names)) (text : Text) where
  abbrev kept_before : Text
  kept_before = rstrip is_eol (split text).before

  abbrev kept_after : Text
  kept_after = lstrip is_eol (split text).after

  split-rewritten : split (rewritten (name ∷ names) text) ≡ (record {
    before = lead kept_before;
    block_lines = [] ∷ map entry (name ∷ names);
    after = newline ++ ended kept_after;
  })
  unfolding rewritten
  split-rewritten = split-rebuild name names kept_before kept_after good (kept-free text)

  pub hosts_in-rewritten :
      hosts_in (split (rewritten (name ∷ names) text)).block_lines ≡ name ∷ names
  unfolding hosts_in strip rstrip lstrip is_comment is_empty
  hosts_in-rewritten = rw split-rewritten (hosts_in-entries (name ∷ names) good)

  rewritten-rewritten :
      (hosts : List Text) → rewritten hosts (rewritten (name ∷ names) text) ≡ rewritten hosts text
  unfolding rewritten
  rewritten-rewritten hosts =
      rw
        (
          split-rewritten,
          rstrip-lead kept_before,
          rstrip_idem is_eol (split text).before,
          lstrip-newline (ended kept_after),
          lstrip-ended (split text).after,
        )
        (rebuild-ended hosts kept_before kept_after)

-- What the program relies on: a text that was written is what is read next.
abbrev pub IsHostsFile : HostsFile → Type 0
IsHostsFile F = (t : Text) (w : F.W) → (F.write t w).0 ≡ true → F.read (F.write t w).1 ≡ some t

module _ (F : HostsFile) (keeps : IsHostsFile F) where
  store_block-read :
      (hosts : List Text) (m : Machine F) (t : Text)
      → (store_block F hosts (F.write t m.files) m).0 ≡ true
      → F.read (store_block F hosts (F.write t m.files) m).1.files ≡ some t
  unfolding store_block
  store_block-read hosts m t = stored (F.write t m.files).0 (F.write t m.files).1 (keeps t m.files)
    where
      stored :
          (b : Bool) (w : F.W)
          → (b ≡ true → F.read w ≡ some t)
          → (store_block F hosts (b, w) m).0 ≡ true
          → F.read (store_block F hosts (b, w) m).1.files ≡ some t
      stored true w kept ok = kept refl
      stored false w kept ok = cc ok

  set_block-read :
      (hosts : List Text) (m : Machine F)
      → (set_block F hosts m).0 ≡ true
      → (text : Text) × (F.read m.files ≡ some text)
        × (F.read (set_block F hosts m).1.files ≡ some (rewritten hosts text))
  unfolding set_block write_block
  set_block-read hosts m = written (F.read m.files)
    where
      written :
          (o : Option Text)
          → (write_block F hosts m o).0 ≡ true
          → (text : Text) × (o ≡ some text)
            × (F.read (write_block F hosts m o).1.files ≡ some (rewritten hosts text))
      written none ok = cc ok
      written (some text) ok = (text, refl, store_block-read hosts m (rewritten hosts text) ok)

  -- After a block of names has been set, its names are the blocked ones, if the file keeps what is
  -- written and each name is not empty and holds no white space.
  pub set_block-blocked_hosts :
      (name : Text) (names : List Text) (m : Machine F)
      → All IsHost (name ∷ names)
      → (set_block F (name ∷ names) m).0 ≡ true
      → blocked_hosts F (set_block F (name ∷ names) m).1 ≡ some (name ∷ names)
  unfolding blocked_hosts blocked_in
  set_block-blocked_hosts name names m good ok =
      let (text, before, now) = set_block-read (name ∷ names) m ok in
      ap (blocked_in F) now ∙ (ap some (hosts_in-rewritten name names good text))

  -- The last block that is set wins: the file holds what it would hold if no block of names had been
  -- set before, also when the last one is empty, if the file keeps what is written and each name of
  -- the first is not empty and holds no white space.
  pub set_block-last_wins :
      (name : Text) (names hosts : List Text) (m : Machine F)
      → All IsHost (name ∷ names)
      → (set_block F (name ∷ names) m).0 ≡ true
      → (set_block F hosts (set_block F (name ∷ names) m).1).0 ≡ true
      → (set_block F hosts m).0 ≡ true
      → F.read (set_block F hosts (set_block F (name ∷ names) m).1).1.files
        ≡ F.read (set_block F hosts m).1.files
  set_block-last_wins name names hosts m good ok again direct =
      let (text, before, now) = set_block-read (name ∷ names) m ok in
      let (text', before', now') = set_block-read hosts (set_block F (name ∷ names) m).1 again in
      let (text'', before'', now'') = set_block-read hosts m direct in
      let second : text' ≡ rewritten (name ∷ names) text = some-injective _ _ (sym before' ∙ now) in
      let first : text ≡ text'' = some-injective _ _ (sym before ∙ before'') in
      now'
      ∙ ap (λ t. some (rewritten hosts t)) second
      ∙ ap some (rewritten-rewritten name names good text hosts)
      ∙ ap (λ t. some (rewritten hosts t)) first
      ∙ sym now''
