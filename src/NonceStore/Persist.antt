-- ===== src/NonceStore/Persist.antt =====
-- src/nonce_store.rs, persist_to and load_from: a line `hex:timestamp` for each nonce.
use snap_pipe.Prelude.{
  ℕ, suc, ◌≡◌, ◌≢◌, refl, Option, none, some, List, [], ◌∷◌, ◌++◌, All, All-imp, All-append, arith,
}
use snap_pipe.Prelude.Results.{Result, ok, err, ◌>>=◌, ok_or, map_err, map_err-ok}
use snap_pipe.Prelude.Int.{ℤ, pos, negsuc, InI64}
use snap_pipe.Prelude.Text.{Text}
use snap_pipe.Prelude.Text.Trim.{trim, is_whitespace, IsInk, trim-All}
use snap_pipe.Prelude.Text.Cut.{
  split_once, lines, lines_from, newline, strip_cr, strip_suffix-none, lines_from-append,
  split_once-append,
}
use snap_pipe.Prelude.Text.Decimal.{
  to_string_ℤ, parse_i64, IsDigit, to_string-IsDigit, parse_i64-to_string,
}
use snap_pipe.Prelude.Map.{HashMap, insert_all, UniqueKeys, insert_all-append}
use snap_pipe.Files.{Files, FilePath, ReadOutcome, contents, not_found, failed}
use snap_pipe.NonceStore.{
  NonceStore, NonceError, io, malformed_line, missing_colon, bad_hex, bad_timestamp, new,
}
use snap_pipe.NonceStore.Hex.{
  Nonce, IsNonce, IsHex, hex_encode, hex_decode, hex_encode-IsHex, hex_decode-hex_encode,
}

-- One round of the loop of `persist_to`, without the line feed.
unfoldable pub render_line : Nonce × ℤ → Text
render_line (nonce, ts) = hex_encode nonce ++ b':' ∷ to_string_ℤ ts

unfoldable pub render : HashMap ℤ → Text
unfolding render_line
render [] = []
render (e ∷ m) = render_line e ++ newline ∷ render m

-- The rest of a round of the loop of `load_from`, after `trim`; a blank line has no entry.
unfoldable pub parse_trimmed : ℕ → Text → Result (Option (Nonce × ℤ)) NonceError
parse_trimmed number [] = ok none
parse_trimmed number (c ∷ line) = do
  (hex, ts) ← ok_or (split_once b':' (c ∷ line)) (malformed_line number missing_colon)
  nonce ← map_err (λ _. malformed_line number bad_hex) (hex_decode hex)
  ts_val ← ok_or (parse_i64 ts) (malformed_line number bad_timestamp)
  ok (some (nonce, ts_val))

abbrev push : Option (Nonce × ℤ) → List (Nonce × ℤ) → List (Nonce × ℤ)
push none es = es
push (some e) es = e ∷ es

-- The loop, from line `number` = `idx + 1` on: the entries, or the first fault.
unfoldable pub parse_lines : ℕ → List Text → Result (List (Nonce × ℤ)) NonceError
unfolding parse_trimmed
parse_lines number [] = ok []
parse_lines number (line ∷ rest) = do
  entry ← parse_trimmed number (trim line)
  entries ← parse_lines (suc number) rest
  ok (push entry entries)

unfoldable pub filled : ℤ → List (Nonce × ℤ) → NonceStore
filled ttl_secs entries =
    let store = new ttl_secs in record store { inner = insert_all store.inner entries }

module _ (f : Files) where
  open f use {Disk, read, write, read-write}

  unfoldable pub persist_to : NonceStore → Disk → FilePath → Result Disk NonceError
  persist_to s d path = map_err (λ message. io path message) (write d path (render s.inner))

  loaded : ReadOutcome → FilePath → ℤ → Result NonceStore NonceError
  loaded (contents raw) path ttl_secs = do
    entries ← parse_lines 1 (lines raw)
    ok (filled ttl_secs entries)
  loaded not_found path ttl_secs = ok (new ttl_secs)
  loaded (failed message) path ttl_secs = err (io path message)

  unfoldable pub load_from : Disk → FilePath → ℤ → Result NonceStore NonceError
  unfolding loaded
  load_from d path ttl_secs = loaded (read d path) path ttl_secs

-- What the file can hold: nonces of 16 bytes, and times that are `i64`.
abbrev pub IsEntry : Nonce × ℤ → Type 0
IsEntry e = IsNonce e.0 × InI64 e.1

IsHex-IsInk : (c : ℕ) → IsHex c → IsInk c
unfolding is_whitespace
IsHex-IsInk c h = ground arith

IsDigit-IsInk : (c : ℕ) → IsDigit c → IsInk c
unfolding is_whitespace
IsDigit-IsInk c h = ground arith

to_string_ℤ-IsInk : (z : ℤ) → All IsInk (to_string_ℤ z)
unfolding to_string_ℤ is_whitespace
to_string_ℤ-IsInk (pos n) = All-imp IsDigit IsInk _ IsDigit-IsInk (to_string-IsDigit n)
to_string_ℤ-IsInk (negsuc n) =
    (refl, All-imp IsDigit IsInk _ IsDigit-IsInk (to_string-IsDigit (suc n)))

render_line-IsInk : (e : Nonce × ℤ) → IsEntry e → All IsInk (render_line e)
unfolding render_line
render_line-IsInk (n, z) h =
    All-append IsInk (hex_encode n) (b':' ∷ to_string_ℤ z)
      (All-imp IsHex IsInk _ IsHex-IsInk (hex_encode-IsHex n h.0.1))
      (unfold is_whitespace in refl, to_string_ℤ-IsInk z)

IsInk-newline : (c : ℕ) → IsInk c → c ≢ newline
unfolding is_whitespace
IsInk-newline c h = ground arith

IsHex-colon : (c : ℕ) → IsHex c → c ≢ b':'
IsHex-colon c h = ground arith

none_cut : (hex ts : Text) → ¬ (split_once b':' [] ≡ some (hex, ts))
unfolding split_once
none_cut hex ts h = cc

parse_trimmed-cut :
    (number : ℕ) (line hex ts : Text)
    → split_once b':' line ≡ some (hex, ts)
    → parse_trimmed number line ≡ (do
      nonce ← map_err (λ _. malformed_line number bad_hex) (hex_decode hex)
      ts_val ← ok_or (parse_i64 ts) (malformed_line number bad_timestamp)
      ok (some (nonce, ts_val)))
unfolding parse_trimmed
parse_trimmed-cut number [] hex ts h = absurd (none_cut hex ts h)
parse_trimmed-cut number (c ∷ line) hex ts h = rw h

parse_trimmed-render_line :
    (number : ℕ) (e : Nonce × ℤ) → IsEntry e → parse_trimmed number (render_line e) ≡ ok (some e)
parse_trimmed-render_line number (n, z) h =
    let cut =
      split_once-append b':' (hex_encode n) (to_string_ℤ z)
        (All-imp IsHex (λ c. c ≢ b':') _ IsHex-colon (hex_encode-IsHex n h.0.1)) in
    unfold render_line in
    rw (parse_trimmed-cut number _ _ _ cut)
      (rw (hex_decode-hex_encode n h.0, parse_i64-to_string z h.1))

IsInk-cr : (c : ℕ) → IsInk c → c ≢ 13
unfolding is_whitespace
IsInk-cr c h = ground arith

strip_cr-ink : (s : Text) → All IsInk s → strip_cr s ≡ s
unfolding strip_cr
strip_cr-ink s h = rw (strip_suffix-none 13 s (All-imp IsInk (λ c. c ≢ 13) s IsInk-cr h))

parse_lines-render :
    (number : ℕ) (m : HashMap ℤ)
    → All IsEntry m
    → parse_lines number (lines_from [] (render m)) ≡ ok m
unfolding parse_lines render
parse_lines-render number [] h = unfold lines_from in refl
parse_lines-render number (e ∷ m) h =
    let ink = render_line-IsInk e h.0 in
    rw
      (
        lines_from-append (render_line e) (render m) []
            (All-imp IsInk (λ c. c ≢ newline) _ IsInk-newline ink),
        strip_cr-ink _ ink,
        trim-All _ ink,
        parse_trimmed-render_line number e h.0,
      )
      (rw (parse_lines-render (suc number) m h.1))

-- What `persist_to` has written, `load_from` reads back: the same nonces with the same times, in a
-- new store, whatever the order of iteration was, if every key is a nonce that occurs once and
-- every time an `i64`.
pub load_from-persist_to :
    (f : Files) (s : NonceStore) (d e : f.Disk) (path : FilePath) (ttl_secs : ℤ)
    → UniqueKeys s.inner
    → All IsEntry s.inner
    → persist_to f s d path ≡ ok e
    → load_from f e path ttl_secs ≡ ok (record (new ttl_secs) { inner = s.inner })
unfolding load_from persist_to lines new
load_from-persist_to f s d e path ttl_secs u h written =
    rw (f.read-write d e path (render s.inner) (map_err-ok _ _ _ written))
      (rw (parse_lines-render 1 s.inner h) (unfold filled in rw (insert_all-append [] s.inner u)))
