-- ===== src/Trust.antt =====
-- src/trust.rs: the registry of trusted issuers and its file. The lock makes every call one step;
-- `add`'s clock, the default path and the parent of a path are arguments.
pub mod History
pub mod Sorted
pub mod Line
pub mod File
mod Tests
use snap_pipe.Prelude.{
  ℕ, suc, ◌+◌, Bool, true, false, ◌&&◌, ◌||◌, Option, none, some, List, [], ◌∷◌, ◌++◌, length, ltb,
  ◌==◌, if◌then◌else◌,
}
use snap_pipe.Prelude.Results.{Result, ok, err, ◌>>=◌, ok_or, map_err}
use snap_pipe.Prelude.Int.{ℤ, pos}
use snap_pipe.Prelude.Text.{Text, codes}
use snap_pipe.Prelude.Text.Trim.{trim}
use snap_pipe.Prelude.Text.Cut.{split_once, strip_prefix, strip_suffix, lines, newline}
use snap_pipe.Prelude.Text.Decimal.{to_string, parse_u32}
use snap_pipe.Prelude.Map.{HashMap, lookup, contains_key, insert, remove, insert_all}
use snap_pipe.Files.{Files, FilePath, ReadOutcome, contents, not_found, failed}
use snap_pipe.Crypto.{Crypto}
use snap_pipe.Ticket.{NodeId, parse}

abbrev pub default_rate_per_min : ℕ
default_rate_per_min = 100

-- What is wrong with a line of the file: the message of the source, without its text.
pub data LineFault : Type 0 where
  no_equals not_quoted no_rate invalid_rate invalid_node_id : LineFault

pub data TrustStoreError : Type 0 where
  io : Text → Text → TrustStoreError
  malformed : ℕ → LineFault → TrustStoreError

pub record TrustEntry : Type 0 where
  pub display_name : Text
  pub added_at_unix : ℤ
  pub rate_limit_per_min : ℕ

pub record TrustStore : Type 0 where
  pub inner : HashMap TrustEntry
  pub path : Option FilePath

abbrev pub new : TrustStore
new = record { inner = []; path = none }

abbrev pub add_at : TrustStore → NodeId → TrustEntry → TrustStore
add_at s node_id entry = record s { inner = insert node_id entry s.inner }

-- `now` is what `now_unix_seconds` returns.
abbrev pub add : TrustStore → NodeId → Text → ℕ → ℤ → TrustStore
add s node_id display_name rate_limit_per_min now = add_at s node_id (record {
  display_name = display_name;
  added_at_unix = now;
  rate_limit_per_min = rate_limit_per_min;
})

abbrev pub remove_node : TrustStore → NodeId → TrustStore × Bool
remove_node s node_id = (record s { inner = remove node_id s.inner }, contains_key node_id s.inner)

-- In the order of iteration of the map.
abbrev pub list : TrustStore → List (NodeId × TrustEntry)
list s = s.inner

abbrev pub is_trusted : TrustStore → NodeId → Bool
is_trusted s node_id = contains_key node_id s.inner

abbrev pub get : TrustStore → NodeId → Option TrustEntry
get s node_id = lookup node_id s.inner

abbrev pub store_len : TrustStore → ℕ
store_len s = length s.inner

abbrev pub store_is_empty : TrustStore → Bool
store_is_empty s = store_len s == 0

-- `str::cmp`; the order of UTF-8 is the one of the code points.
unfoldable pub le_text : Text → Text → Bool
le_text [] t = true
le_text (c ∷ s) [] = false
le_text (c ∷ s) (d ∷ t) = ltb c d || ((c == d) && le_text s t)

unfoldable pub place : NodeId × TrustEntry → List (NodeId × TrustEntry) → List (NodeId × TrustEntry)
place e [] = e ∷ []
place e (f ∷ es) = if le_text e.0 f.0 then e ∷ f ∷ es else f ∷ place e es

-- `sort_by` on the identities, as a stable insertion sort
unfoldable pub sorted : List (NodeId × TrustEntry) → List (NodeId × TrustEntry)
sorted [] = []
sorted (e ∷ es) = place e (sorted es)

abbrev pub first_comment : Text
first_comment = codes "# SnapPipe trust store: one issuer per line as `node_id = \"name:rate\"`."

abbrev pub second_comment : Text
second_comment = codes "# Lines beginning with `#` and blank lines are ignored."

-- One round of the loop of `save`, without the line feed.
unfoldable pub render_line : NodeId × TrustEntry → Text
render_line (node, entry) =
    node
    ++ (codes " = \""
        ++ (entry.display_name ++ (b':' ∷ (to_string entry.rate_limit_per_min ++ b'"' ∷ []))))

unfoldable pub render_lines : List (NodeId × TrustEntry) → Text
render_lines [] = []
render_lines (e ∷ es) = render_line e ++ newline ∷ render_lines es

unfoldable pub render : List (NodeId × TrustEntry) → Text
render entries =
    first_comment ++ newline ∷ (second_comment ++ newline ∷ render_lines (sorted entries))

-- `strip_prefix('"').and_then(|s| s.strip_suffix('"'))`
unfoldable pub unquoted : Text → Option Text
unquoted s = elim (strip_prefix b'"' s) [ none ↦ none | some r ↦ strip_suffix b'"' r ]

module _ (c : Crypto) where
  -- A round of the loop of `parse` after `trim`, for a line that is not skipped.
  unfoldable pub parse_entry : ℕ → Text → Result (NodeId × TrustEntry) TrustStoreError
  parse_entry line_no trimmed = do
    (lhs, rhs) ← ok_or (split_once b'=' trimmed) (malformed line_no no_equals)
    payload ← ok_or (unquoted (trim rhs)) (malformed line_no not_quoted)
    (name, rate_text) ← ok_or (split_once b':' payload) (malformed line_no no_rate)
    rate ← ok_or (parse_u32 (trim rate_text)) (malformed line_no invalid_rate)
    node_id ← map_err (λ _. malformed line_no invalid_node_id) (parse c (trim lhs))
    ok (
      node_id,
      record { display_name = trim name; added_at_unix = pos 0; rate_limit_per_min = rate },
    )

  -- A blank line or a comment has no entry.
  unfoldable pub parse_line : ℕ → Text → Result (Option (NodeId × TrustEntry)) TrustStoreError
  parse_line line_no [] = ok none
  parse_line line_no (h ∷ rest) =
      let parsed = parse_entry line_no (h ∷ rest) in
      if h == b'#' then ok none else (parsed >>= λ e. ok (some e))

  -- The loop from line `line_no` on, over the map that the lines before have made.
  unfoldable pub parse_lines :
      ℕ → List Text → HashMap TrustEntry → Result (HashMap TrustEntry) TrustStoreError
  parse_lines line_no [] out = ok out
  parse_lines line_no (line ∷ rest) out = elim (parse_line line_no (trim line)) [
    | err e ↦ err e
    | ok none ↦ parse_lines (suc line_no) rest out
    | ok (some (node_id, entry)) ↦ parse_lines (suc line_no) rest (insert node_id entry out)
  ]

  unfoldable pub parse_file : Text → Result (HashMap TrustEntry) TrustStoreError
  parse_file raw = parse_lines 1 (lines raw) []

  module _ (f : Files) where
    open f use {Disk, read, write, create_dir_all}

    unfoldable pub load_from_path : Disk → FilePath → Result TrustStore TrustStoreError
    load_from_path d p = elim (read d p) [
      | contents raw ↦ (parse_file raw >>= λ m. ok (record { inner = m; path = some p }))
      | not_found ↦ ok (record { inner = []; path = some p })
      | failed message ↦ err (io p message)
    ]

    unfoldable pub load_or_default : Disk → Option FilePath → Result TrustStore TrustStoreError
    load_or_default d none = ok new
    load_or_default d (some p) = load_from_path d p

module _ (f : Files) where
  open f use {Disk, write, create_dir_all}

  abbrev pub with_parent : Disk → Option FilePath → Result Disk TrustStoreError
  with_parent d none = ok d
  with_parent d (some parent) = map_err (λ message. io parent message) (create_dir_all d parent)

  -- `parent` is `Path::parent`.
  unfoldable pub save :
      TrustStore → (FilePath → Option FilePath) → Disk → Result Disk TrustStoreError
  save s parent d = elim s.path [
    | none ↦ ok d
    | some p ↦
        (with_parent d (parent p) >>= λ made.
        map_err (λ message. io p message) (write made p (render (list s))))
  ]
