-- ===== src/Hosts.antt =====
-- windows/hosts.py: the block of the hosts file that the program owns. The file is read and written
-- by the parameter `HostsFile`; `lower` is Python's `str.lower`.
pub mod Texts
pub mod Finding
pub mod Reading
pub mod Rewriting
pub mod Stripping
pub mod Setting
unfoldable pub use Texts.*
use pudge_gaming_manager.Prelude.{
  ℕ, Bool, true, false, not, ◌&&◌, ◌||◌, Option, none, some, List, [], ◌∷◌, ◌++◌, ◌==◌, map, codes,
  if◌then◌else◌, Text,
}

unfoldable pub begin_marker : Text
begin_marker = codes "# === Pudge Cleaner: начало ==="

unfoldable pub end_marker : Text
end_marker = codes "# === Pudge Cleaner: конец ==="

unfoldable pub blackhole : Text
blackhole = codes "0.0.0.0"

unfoldable pub newline : Text
newline = 13 ∷ 10 ∷ []

-- `(before, block_lines, after)`
pub record Parts : Type 0 where
  pub before : Text
  pub block_lines : List Text
  pub after : Text

-- The end of the block, in the text from the marker on.
unfoldable pub cut_block : Text → Text → Option (Text × Text) → Parts
cut_block before from none = record {
  before = before;
  block_lines = lines false [] from;
  after = [];
}
cut_block before from (some (marked, rest)) = record {
  before = before;
  block_lines = lines false [] (drop_length begin_marker marked);
  after = drop_length end_marker rest;
}

unfoldable pub split_at : Text → Option (Text × Text) → Parts
split_at text none = record { before = text; block_lines = []; after = [] }
split_at text (some (before, from)) = cut_block before from (find end_marker from)

-- `_split`
unfoldable pub split : Text → Parts
split text = split_at text (find begin_marker text)

-- `not stripped or stripped.startswith("#")`
unfoldable pub is_comment : Text → Bool
is_comment stripped = is_empty stripped || begins (35 ∷ []) stripped

-- The names of an entry: `parts[1:]`, where there are two parts at least.
unfoldable pub names_of : List Text → List Text
names_of [] = []
names_of (address ∷ names) = names

unfoldable pub hosts_in : List Text → List Text
hosts_in [] = []
hosts_in (line ∷ rest) =
    let found = hosts_in rest in
    let stripped = strip line in
    if is_comment stripped then found else names_of (words [] stripped) ++ found

unfoldable pub maps_host : (Text → Text) → Text → Text → Bool
maps_host lower wanted line =
    let stripped = strip line in
    not (is_comment stripped) && text_among wanted (names_of (words [] (lower stripped)))

unfoldable pub some_maps : (Text → Text) → Text → List Text → Bool
some_maps lower wanted [] = false
some_maps lower wanted (line ∷ rest) =
    if maps_host lower wanted line then true else some_maps lower wanted rest

unfoldable pub is_eol : ℕ → Bool
is_eol c = c == 13 || c == 10

-- A text that ends with a newline, if it is not empty.
unfoldable pub ended : Text → Text
ended t = if not (is_empty t) && not (ends_with_newline t) then t ++ newline else t

unfoldable pub entry : Text → Text
entry name = blackhole ++ 32 ∷ name

-- `_NEWLINE.join(lines)`, for the lines of the block after its first, and a newline.
unfoldable pub body : List Text → Text
body [] = end_marker ++ newline
body (name ∷ names) = entry name ++ (newline ++ body names)

unfoldable pub block : List Text → Text
block hosts = begin_marker ++ (newline ++ body hosts)

unfoldable pub rebuild : List Text → (before after : Text) → Text
rebuild [] before after = (if is_empty before then [] else before ++ newline) ++ ended after
rebuild (name ∷ names) before after =
    (if is_empty before then [] else before ++ (newline ++ newline))
    ++ (block (name ∷ names) ++ ended after)

-- The text that `set_block` writes, from the one that it read.
unfoldable pub rewritten : List Text → Text → Text
rewritten hosts text =
    let parts = split text in rebuild hosts (rstrip is_eol parts.before) (lstrip is_eol parts.after)

-- What reads and writes the hosts file, on the files `W`; `path` is where it stands.
pub record HostsFile : Type 1 where
  pub W : Type 0
  pub path : Text
  pub read : W → Option Text
  pub write : Text → W → Bool × W

-- An event of the audit file: the block that was set, and where.
pub record HostsEvent : Type 0 where
  pub target : Text
  pub hosts : List Text

-- The files, and the audit file.
pub record Machine (F : HostsFile) : Type 0 where
  pub files : F.W
  pub audit_file : List HostsEvent

module _ (F : HostsFile) where
  unfoldable pub blocked_in : Option Text → Option (List Text)
  blocked_in none = none
  blocked_in (some text) = some (hosts_in (split text).block_lines)

  unfoldable pub blocked_hosts : Machine F → Option (List Text)
  blocked_hosts m = blocked_in (F.read m.files)

  unfoldable pub other_entry_exists : (Text → Text) → Text → Machine F → Bool
  other_entry_exists lower host m = elim (F.read m.files) [
    | none ↦ false
    | some text ↦
        some_maps lower (lower host) (lines false [] ((split text).before ++ (split text).after))
  ]

  unfoldable pub store_block : List Text → Bool × F.W → Machine F → Bool × Machine F
  store_block hosts (false, w) m = (false, record m { files = w })
  store_block hosts (true, w) m = (
    true,
    record m {
      files = w;
      audit_file = m.audit_file ++ (record { target = F.path; hosts = hosts }) ∷ [];
    },
  )

  unfoldable pub write_block : List Text → Machine F → Option Text → Bool × Machine F
  write_block hosts m none = (false, m)
  write_block hosts m (some text) = store_block hosts (F.write (rewritten hosts text) m.files) m

  unfoldable pub set_block : List Text → Machine F → Bool × Machine F
  set_block hosts m = write_block hosts m (F.read m.files)
