-- ===== src/Trust/Line.antt =====
-- src/trust.rs: a line that `save` writes, as `parse` reads it.
use snap_pipe.Prelude.{
  ℕ, ◌^◌, ◌<◌, ◌≡◌, ◌≢◌, refl, sym, ap, ◌∙◌, some, [], ◌∷◌, ◌++◌, All, All-imp, All-append,
  append_assoc, arith,
}
use snap_pipe.Prelude.Results.{ok, err, ◌>>=◌}
use snap_pipe.Prelude.Int.{pos}
use snap_pipe.Prelude.Text.{Text, codes}
use snap_pipe.Prelude.Text.Trim.{
  trim, is_whitespace, IsInk, trim-All, trim-ends, trim-leading, trim-space,
}
use snap_pipe.Prelude.Text.Cut.{
  split_once-append, strip_prefix, strip_suffix-append, strip_suffix-other, strip_cr, newline,
}
use snap_pipe.Prelude.Text.Decimal.{
  to_string, parse_u32, IsDigit, to_string-IsDigit, parse_u32-to_string, parse_u32-other,
}
use snap_pipe.Crypto.{Crypto}
use snap_pipe.Ticket.{NodeId, parse}
use snap_pipe.Trust.{
  TrustEntry, malformed, invalid_rate, render_line, unquoted, parse_entry, parse_line,
}

-- A character of an identity that the file can hold.
abbrev pub IsNodeChar : ℕ → Type 0
IsNodeChar d = IsInk d × (d ≢ b'=') × (d ≢ b'#')

-- An entry that `save` writes on one line: its identity has characters of base64url, and its name
-- no line feed.
pub record IsLine (e : NodeId × TrustEntry) : Type 0 where
  pub not_empty : e.0 ≢ []
  pub node_chars : All IsNodeChar e.0
  pub one_line : All (λ d. d ≢ newline) e.1.display_name

-- An entry that the file can hold: also, its identity is valid, its name has no colon and no white
-- space at its ends, and its rate is a `u32`.
pub record IsSavable (c : Crypto) (e : NodeId × TrustEntry) : Type 0 where
  pub line : IsLine e
  pub valid : parse c e.0 ≡ ok e.0
  pub trimmed : trim e.1.display_name ≡ e.1.display_name
  pub no_colon : All (λ d. d ≢ b':') e.1.display_name
  pub in_range : e.1.rate_limit_per_min < 2 ^ 32

-- The file does not hold the time of the addition.
abbrev pub reloaded : NodeId × TrustEntry → NodeId × TrustEntry
reloaded e = (e.0, record e.1 { added_at_unix = pos 0 })

abbrev payload : NodeId × TrustEntry → Text
payload e = e.1.display_name ++ b':' ∷ to_string e.1.rate_limit_per_min

-- The value of a line, from after the equals sign.
abbrev value : NodeId × TrustEntry → Text
value e = b' ' ∷ b'"' ∷ (payload e ++ b'"' ∷ [])

render_line-value : (e : NodeId × TrustEntry) → render_line e ≡ (e.0 ++ b' ' ∷ []) ++ b'=' ∷ value e
unfolding render_line
render_line-value (node, entry) = rw (append_assoc node, append_assoc entry.display_name)

IsDigit-IsInk : (d : ℕ) → IsDigit d → IsInk d
unfolding is_whitespace
IsDigit-IsInk d h = ground arith

IsInk-quote : IsInk b'"'
unfolding is_whitespace
IsInk-quote = refl

unquoted-value : (e : NodeId × TrustEntry) → unquoted (trim (value e)) ≡ some (payload e)
unfolding unquoted
unquoted-value e =
    rw
      (
        trim-leading (b'"' ∷ (payload e ++ b'"' ∷ [])),
        trim-ends b'"' (payload e) b'"' IsInk-quote IsInk-quote,
      )
      (unfold strip_prefix in strip_suffix-append b'"' (payload e))

trim-rate : (n : ℕ) → n < 2 ^ 32 → parse_u32 (trim (to_string n)) ≡ some n
trim-rate n h =
    rw (trim-All (to_string n) (All-imp IsDigit IsInk _ IsDigit-IsInk (to_string-IsDigit n)))
      (parse_u32-to_string n h)

chars_part : (node : Text) → All IsNodeChar node → All (λ d. d ≢ b'=') (node ++ b' ' ∷ [])
chars_part node h =
    All-append (λ d. d ≢ b'=') node (b' ' ∷ [])
      (All-imp IsNodeChar (λ d. d ≢ b'=') node (λ d k. k.1) h) (omega arith, tt)

IsInk-colon : IsInk b':'
unfolding is_whitespace
IsInk-colon = refl

parse_entry-render_line :
    (c : Crypto) (line_no : ℕ) (e : NodeId × TrustEntry)
    → IsSavable c e
    → parse_entry c line_no (render_line e) ≡ ok (reloaded e)
unfolding parse_entry
parse_entry-render_line c line_no e v = rw (
  render_line-value e,
  split_once-append b'=' (e.0 ++ b' ' ∷ []) (value e) (chars_part e.0 v.line.node_chars),
  unquoted-value e,
  split_once-append b':' e.1.display_name (to_string e.1.rate_limit_per_min) v.no_colon,
  trim-rate e.1.rate_limit_per_min v.in_range,
  trim-space e.0 (All-imp IsNodeChar IsInk e.0 (λ d h. h.0) v.line.node_chars),
  v.valid,
  v.trimmed,
)

-- The line between its first character and the closing quote
abbrev middle : Text → NodeId × TrustEntry → Text
middle n e = (n ++ b' ' ∷ []) ++ b'=' ∷ b' ' ∷ b'"' ∷ payload e

render_line-ends :
    (x : ℕ) (n : Text) (entry : TrustEntry)
    → render_line (x ∷ n, entry) ≡ (x ∷ middle n (x ∷ n, entry)) ++ b'"' ∷ []
render_line-ends x n entry =
    let e : NodeId × TrustEntry = (x ∷ n, entry) in
    render_line-value e
    ∙ ap (λ r. x ∷ r)
        (sym (append_assoc (n ++ b' ' ∷ []) (b'=' ∷ b' ' ∷ b'"' ∷ payload e) (b'"' ∷ [])))

IsNodeChar-newline : (d : ℕ) → IsNodeChar d → d ≢ newline
unfolding is_whitespace
IsNodeChar-newline d h = ground (arith, h.0)

IsDigit-newline : (d : ℕ) → IsDigit d → d ≢ newline
IsDigit-newline d h = ground arith

-- What `save` writes for an entry is one line.
pub render_line-newline :
    (e : NodeId × TrustEntry) → IsLine e → All (λ d. d ≢ newline) (render_line e)
unfolding render_line
render_line-newline (node, entry) v =
    All-append (λ d. d ≢ newline) node _
      (All-imp IsNodeChar (λ d. d ≢ newline) node IsNodeChar-newline v.node_chars)
      (All-append (λ d. d ≢ newline) (codes " = \"") _
        (omega arith, (omega arith, (omega arith, (omega arith, tt))))
        (All-append (λ d. d ≢ newline) entry.display_name _ v.one_line
          (
            omega arith,
            All-append (λ d. d ≢ newline) (to_string entry.rate_limit_per_min) _
                (All-imp IsDigit (λ d. d ≢ newline) _ IsDigit-newline
                  (to_string-IsDigit entry.rate_limit_per_min))
                (omega arith, tt),
          )))

pub strip_cr-render_line :
    (e : NodeId × TrustEntry) → IsLine e → strip_cr (render_line e) ≡ render_line e
unfolding strip_cr
strip_cr-render_line ([], entry) v = absurd (v.not_empty refl)
strip_cr-render_line (x ∷ n, entry) v = rw (
  render_line-ends x n entry,
  strip_suffix-other 13 (x ∷ middle n (x ∷ n, entry)) b'"' (omega arith),
)

not_skipped :
    (c : Crypto) (line_no x : ℕ) (rest : Text)
    → x ≢ b'#'
    → parse_line c line_no (x ∷ rest) ≡ (parse_entry c line_no (x ∷ rest) >>= λ e. ok (some e))
unfolding parse_line
not_skipped c line_no x rest h = ground arith

-- A line that `save` writes is not skipped.
parse_line-whole :
    (c : Crypto) (line_no : ℕ) (e : NodeId × TrustEntry)
    → IsLine e
    → parse_line c line_no (trim (render_line e))
      ≡ (parse_entry c line_no (render_line e) >>= λ e. ok (some e))
parse_line-whole c line_no ([], entry) v = absurd (v.not_empty refl)
parse_line-whole c line_no (x ∷ n, entry) v =
    let e : NodeId × TrustEntry = (x ∷ n, entry) in
    let whole = render_line-ends x n entry in
    ap (λ t. parse_line c line_no (trim t)) whole
    ∙ ap (parse_line c line_no) (trim-ends x (middle n e) b'"' v.node_chars.0.0 IsInk-quote)
    ∙ not_skipped c line_no x (middle n e ++ b'"' ∷ []) v.node_chars.0.2
    ∙ ap (λ t. parse_entry c line_no t >>= λ e. ok (some e)) (sym whole)

-- An entry is read back from its line, without the time of its addition.
pub parse_line-render_line :
    (c : Crypto) (line_no : ℕ) (e : NodeId × TrustEntry)
    → IsSavable c e
    → parse_line c line_no (trim (render_line e)) ≡ ok (some (reloaded e))
parse_line-render_line c line_no e v =
    parse_line-whole c line_no e v.line
    ∙ ap (λ r. r >>= λ e. ok (some e)) (parse_entry-render_line c line_no e v)

-- A display name with a colon: the rest of the name is taken for the rate.
parse_entry-colon :
    (c : Crypto) (line_no : ℕ) (node before after : Text) (entry : TrustEntry)
    → entry.display_name ≡ before ++ b':' ∷ after
    → All IsNodeChar node
    → All (λ d. d ≢ b':') before
    → All IsInk after
    → parse_entry c line_no (render_line (node, entry)) ≡ err (malformed line_no invalid_rate)
unfolding parse_entry
parse_entry-colon c line_no node before after entry named node_chars first ink =
    let rate = to_string entry.rate_limit_per_min in
    rw (
      render_line-value (node, entry),
      split_once-append b'=' (node ++ b' ' ∷ []) (value (node, entry)) (chars_part node node_chars),
      unquoted-value (node, entry),
      named,
      append_assoc before (b':' ∷ after) (b':' ∷ rate),
      split_once-append b':' before (after ++ b':' ∷ rate) first,
      trim-All (after ++ b':' ∷ rate) (
          All-append IsInk after (b':' ∷ rate) ink (
            IsInk-colon,
            All-imp IsDigit IsInk _ IsDigit-IsInk (to_string-IsDigit entry.rate_limit_per_min),
          )),
      parse_u32-other b':' after rate (λ h. omega arith) (omega arith),
    )

pub parse_line-colon :
    (c : Crypto) (line_no : ℕ) (node before after : Text) (entry : TrustEntry)
    → entry.display_name ≡ before ++ b':' ∷ after
    → IsLine (node, entry)
    → All (λ d. d ≢ b':') before
    → All IsInk after
    → parse_line c line_no (trim (render_line (node, entry))) ≡ err (malformed line_no invalid_rate)
parse_line-colon c line_no node before after entry named v first ink =
    parse_line-whole c line_no (node, entry) v
    ∙ ap (λ r. r >>= λ e. ok (some e))
        (parse_entry-colon c line_no node before after entry named v.node_chars first ink)
