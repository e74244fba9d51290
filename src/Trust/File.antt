-- ===== src/Trust/File.antt =====
-- src/trust.rs: load_from_path on a file that save has written.
use snap_pipe.Prelude.{
  ℕ, suc, ◌≡◌, ◌≢◌, refl, ap, ◌∙◌, Bool, true, not, ◌&&◌, ◌==◌, Option, none, some, [], ◌∷◌, ◌++◌,
  All, arith,
}
use mathlib.Core.Option
use snap_pipe.Prelude.Results.{ok, err, ◌>>=◌, map_err, map_err-ok, >>=-eq-ok}
use snap_pipe.Prelude.Int.{pos}
use snap_pipe.Prelude.Text.{Text}
use snap_pipe.Prelude.Text.Trim.{IsInk, trim, trim_start, is_whitespace}
use snap_pipe.Prelude.Text.Cut.{
  lines, lines_from, newline, strip_cr, strip_suffix, lines_from-append,
}
use snap_pipe.Prelude.Map.{HashMap, lookup, insert_all, UniqueKeys, insert_all-append}
use snap_pipe.Files.{Files, FilePath, contents}
use snap_pipe.Crypto.{Crypto}
use snap_pipe.Ticket.{NodeId}
use snap_pipe.Trust.{
  TrustEntry, TrustStore, io, malformed, invalid_rate, place, with_parent, get, list, sorted,
  first_comment, second_comment, render_line, render_lines, render, parse_line, parse_lines,
  parse_file, load_from_path, save,
}
use snap_pipe.Trust.Sorted.{lookup-sorted, sorted-UniqueKeys, All-sorted}
use snap_pipe.Trust.Line.{
  IsLine, IsSavable, parse_line-colon, reloaded, render_line-newline, strip_cr-render_line,
  parse_line-render_line,
}

-- The entries as they come back from a file.
abbrev pub all_reloaded : HashMap TrustEntry → HashMap TrustEntry
all_reloaded [] = []
all_reloaded (e ∷ es) = reloaded e ∷ all_reloaded es

abbrev pub forget_time : TrustEntry → TrustEntry
forget_time entry = record entry { added_at_unix = pos 0 }

lookup-all_reloaded :
    (k : NodeId) (es : HashMap TrustEntry)
    → lookup k (all_reloaded es) ≡ Option.map forget_time (lookup k es)
unfolding lookup
lookup-all_reloaded k [] = refl
lookup-all_reloaded k ((j, v) ∷ es) = ground (arith, lookup-all_reloaded k es)

all_reloaded-UniqueKeys : (es : HashMap TrustEntry) → UniqueKeys es → UniqueKeys (all_reloaded es)
all_reloaded-UniqueKeys [] u = tt
all_reloaded-UniqueKeys ((k, v) ∷ es) (new, u) =
    (lookup-all_reloaded k es ∙ ap (Option.map forget_time) new, all_reloaded-UniqueKeys es u)

parse_lines-render_lines :
    (c : Crypto) (line_no : ℕ) (es out : HashMap TrustEntry)
    → All (IsSavable c) es
    → parse_lines c line_no (lines_from [] (render_lines es)) out
      ≡ ok (insert_all out (all_reloaded es))
unfolding render_lines parse_lines insert_all
parse_lines-render_lines c line_no [] out h = unfold lines_from in refl
parse_lines-render_lines c line_no (e ∷ es) out (v, h) =
    rw
      (
        lines_from-append (render_line e) (render_lines es) [] (render_line-newline e v.line),
        strip_cr-render_line e v.line,
        parse_lines,
        parse_line-render_line c line_no e v,
      )
      (parse_lines-render_lines c (suc line_no) es _ h)

one_line : Text → Bool
one_line [] = true
one_line (d ∷ s) = not (d == newline) && one_line s

one_line_lem : (s : Text) → one_line s ≡ true → All (λ d. d ≢ newline) s
unfolding one_line
one_line_lem [] h = tt
one_line_lem (d ∷ s) h = ground (arith, one_line_lem s)

-- The two lines of comment are skipped.
comment-skipped :
    (c : Crypto) (line_no : ℕ) (comment rest : Text) (out : HashMap TrustEntry)
    → one_line comment ≡ true
    → parse_line c line_no (trim (strip_cr comment)) ≡ ok none
    → parse_lines c line_no (lines_from [] (comment ++ newline ∷ rest)) out
      ≡ parse_lines c (suc line_no) (lines_from [] rest) out
unfolding parse_lines
comment-skipped c line_no comment rest out short skipped =
    rw (lines_from-append comment rest [] (one_line_lem comment short), parse_lines, skipped)

module _ (c : Crypto) (line_no : ℕ) where
  skip_one : parse_line c line_no (trim (strip_cr first_comment)) ≡ ok none
  unfolding parse_line trim trim_start is_whitespace strip_cr strip_suffix
  skip_one = refl

  skip_two : parse_line c line_no (trim (strip_cr second_comment)) ≡ ok none
  unfolding parse_line trim trim_start is_whitespace strip_cr strip_suffix
  skip_two = refl

short_one : one_line first_comment ≡ true
unfolding one_line
short_one = refl

short_two : one_line second_comment ≡ true
unfolding one_line
short_two = refl

parse_file-render :
    (c : Crypto) (es : HashMap TrustEntry)
    → UniqueKeys es
    → All (IsSavable c) es
    → parse_file c (render es) ≡ ok (all_reloaded (sorted es))
unfolding parse_file render lines
parse_file-render c es u h =
    let body = second_comment ++ newline ∷ render_lines (sorted es) in
    comment-skipped c 1 first_comment body [] short_one (skip_one c 1)
    ∙ comment-skipped c 2 second_comment (render_lines (sorted es)) [] short_two (skip_two c 2)
    ∙ parse_lines-render_lines c 3 (sorted es) [] (All-sorted (IsSavable c) es h)
    ∙ ap ok (
        insert_all-append [] (all_reloaded (sorted es))
          (all_reloaded-UniqueKeys (sorted es) (sorted-UniqueKeys es u)))

loads :
    (c : Crypto) (f : Files) (e : f.Disk) (p : FilePath) (es : HashMap TrustEntry)
    → UniqueKeys es
    → All (IsSavable c) es
    → f.read e p ≡ contents (render es)
    → load_from_path c f e p ≡ ok (record { inner = all_reloaded (sorted es); path = some p })
unfolding load_from_path
loads c f e p es u h stored = rw (load_from_path, stored, parse_file-render c es u h)

save_at :
    (f : Files) (s : TrustStore) (parent : FilePath → Option FilePath) (d e : f.Disk) (p : FilePath)
    → s.path ≡ some p
    → save f s parent d ≡ ok e
    → (with_parent f d (parent p) >>= λ made.
        map_err (λ message. io p message) (f.write made p (render (list s))))
      ≡ ok e
unfolding save
save_at f s parent d e p at saved = rw at at saved

-- Loading the file that `save` has written gives a store at the same path in which every node has
-- the same entry but for the time of its addition, which becomes 0, if the map has each key once
-- and every entry is savable: a valid identity in base64url, a trimmed name without a colon or a
-- line feed, and a rate that is a `u32`.
pub load_from_path-save :
    (c : Crypto) (f : Files) (s : TrustStore) (parent : FilePath → Option FilePath) (d e : f.Disk)
    (p : FilePath)
    → s.path ≡ some p
    → UniqueKeys s.inner
    → All (IsSavable c) s.inner
    → save f s parent d ≡ ok e
    → (loaded : TrustStore) × (load_from_path c f e p ≡ ok loaded)
      × (loaded.path ≡ some p)
      × ((k : NodeId) → get loaded k ≡ Option.map forget_time (get s k))
load_from_path-save c f s parent d e p at u h saved =
    let (made, _, written) =
      >>=-eq-ok (with_parent f d (parent p)) _ (save_at f s parent d e p at saved) in
    (
      record { inner = all_reloaded (sorted s.inner); path = some p },
      loads c f e p s.inner u h
          (f.read-write made e p (render (list s)) (map_err-ok _ _ _ written)),
      refl,
      λ k.
          lookup-all_reloaded k (sorted s.inner)
          ∙ ap (Option.map forget_time) (lookup-sorted k s.inner u),
    )

colon_fails :
    (c : Crypto) (node before after : Text) (entry : TrustEntry)
    → entry.display_name ≡ before ++ b':' ∷ after
    → IsLine (node, entry)
    → All (λ d. d ≢ b':') before
    → All IsInk after
    → parse_file c (render ((node, entry) ∷ [])) ≡ err (malformed 3 invalid_rate)
unfolding parse_file render lines parse_lines
colon_fails c node before after entry named v first ink =
    comment-skipped c 1 first_comment
      (second_comment ++ newline ∷ render_lines (sorted ((node, entry) ∷ []))) [] short_one
      (skip_one c 1)
    ∙ comment-skipped c 2 second_comment (render_lines (sorted ((node, entry) ∷ []))) [] short_two
        (skip_two c 2)
    ∙ unfold sorted place render_lines in
      rw (
        lines_from-append (render_line (node, entry)) [] [] (render_line-newline (node, entry) v),
        strip_cr-render_line (node, entry) v,
        parse_lines,
        parse_line-colon c 3 node before after entry named v first ink,
      )

-- A store whose only entry, with an identity in base64url, has a display name in which a colon is
-- followed by no white space and which has no line feed saves, but its file does not load: the text
-- after the first colon is an invalid rate in line 3.
pub load_from_path_colon :
    (c : Crypto) (f : Files) (s : TrustStore) (parent : FilePath → Option FilePath) (d e : f.Disk)
    (p : FilePath) (node before after : Text) (entry : TrustEntry)
    → s.path ≡ some p
    → s.inner ≡ (node, entry) ∷ []
    → entry.display_name ≡ before ++ b':' ∷ after
    → IsLine (node, entry)
    → All (λ d. d ≢ b':') before
    → All IsInk after
    → save f s parent d ≡ ok e
    → load_from_path c f e p ≡ err (malformed 3 invalid_rate)
unfolding load_from_path
load_from_path_colon c f s parent d e p node before after entry at one named v first ink saved =
    let (made, _, written) =
      >>=-eq-ok (with_parent f d (parent p)) _ (save_at f s parent d e p at saved) in
    rw (
      load_from_path,
      f.read-write made e p (render (list s)) (map_err-ok _ _ _ written),
      one,
      colon_fails c node before after entry named v first ink,
    )
