-- ===== src/Http/Headers.antt =====
-- `GetResponseHeaders` against the header lines that were received.
use curlion.Common.{
  ℕ, ◌≡◌, refl, sym, ap, ◌∙◌, ◌≢◌, true, false, some, List, [], ◌∷◌, ◌++◌, append_assoc, append-nil,
  Bytes, arith, Bool-cases, inl, inr,
}
use curlion.Connection.State.{Client}
use curlion.Connection.Body.{write_header}
use curlion.Http.Text.{make_http_header_line, split_string, split_loop, field_separator, line_end}
use curlion.Http.Multimap.{Multimap, insert, values, IsSorted, insert-IsSorted, values-insert}
use curlion.Http.Split.{Lacks, AllLack, terminated}
use curlion.Http.Pieces.{kept, split_string_total, split_string-terminated, split_string-prefix}
use curlion.Http.State.{
  HttpConnection, insert_parts, parse_lines, parse_response_headers, get_response_headers, on_base,
  will_start_http,
}

colon-ne-space : ◌≢◌ {A = ℕ} b':' b' '
colon-ne-space = omega arith

return-ne-newline : ◌≢◌ {A = ℕ} b'\r' b'\n'
return-ne-newline = omega arith

parse_lines_total :
    (lines : List Bytes) (m : Multimap) → (m' : Multimap) × (parse_lines lines m ≡ some m')
unfolding parse_lines
parse_lines_total [] m = (m, refl)
parse_lines_total (line ∷ lines) m =
    let (parts, run, lack, spells) = split_string_total b':' b' ' line colon-ne-space in
    let (m', rest) = parse_lines_total lines (insert_parts parts m) in
    (m', rw (run, parse_lines) rest)

-- `GetResponseHeaders` ends on every response header, returns the map that it keeps, and changes
-- nothing but that map and its mark.
pub get_response_headers_total :
    (h : HttpConnection)
    → (m : Multimap) × (get_response_headers h
        ≡ some (record h { has_parsed_response_headers = true; response_headers = m }, m))
unfolding get_response_headers parse_response_headers
get_response_headers_total h = elim (Bool-cases h.has_parsed_response_headers) [
  | inl parsed ↦ (h.response_headers, ground (arith, parsed))
  | inr fresh ↦
      let (lines, run, lack, spells) =
        split_string_total b'\r' b'\n' h.response_header return-ne-newline in
      let (m, rest) = parse_lines_total lines h.response_headers in
      (m, ground (arith, fresh, run, rest))
]

-- The lines of some headers, and a received block: a status line, the lines, and an empty line.
abbrev lines_of : Multimap → List Bytes
lines_of [] = []
lines_of ((field, value) ∷ hs) = make_http_header_line field value ∷ lines_of hs

abbrev pub block : Bytes → Multimap → Bytes
block status hs = terminated line_end (status ∷ lines_of hs ++ [] ∷ [])

-- A header that a line can carry.
abbrev pub IsCarried : Bytes → Bytes → Type 0
IsCarried field value =
    Lacks line_end (make_http_header_line field value)
    × Lacks field_separator field
    × Lacks field_separator value
    × (value ≢ [])

abbrev pub AllCarried : Multimap → Type 0
AllCarried [] = Unit {0}
AllCarried ((field, value) ∷ hs) = IsCarried field value × AllCarried hs

abbrev pub inserted : Multimap → Multimap → Multimap
inserted [] m = m
inserted ((field, value) ∷ hs) m = inserted hs (insert field value m)

kept_some : (p : Bytes) → p ≢ [] → kept p ≡ p ∷ []
kept_some [] h = absurd (h refl)
kept_some (b ∷ p) h = refl

split_line :
    (field value : Bytes)
    → IsCarried field value
    → split_string (make_http_header_line field value) field_separator ≡ some (field ∷ value ∷ [])
unfolding make_http_header_line
split_line field value (_, field_lacks, value_lacks, filled) =
    split_string-terminated b':' b' ' (field ∷ []) value colon-ne-space (field_lacks, tt)
      value_lacks
    ∙ rw (kept_some value filled)

-- A line with no separator makes no header.
no_header :
    (line : Bytes) (lines : List Bytes) (m : Multimap)
    → Lacks field_separator line
    → parse_lines (line ∷ lines) m ≡ parse_lines lines m
unfolding parse_lines
no_header [] lines m lacks =
    rw (split_string-terminated b':' b' ' [] [] colon-ne-space tt lacks, parse_lines)
no_header (b ∷ line) lines m lacks =
    rw (split_string-terminated b':' b' ' [] (b ∷ line) colon-ne-space tt lacks, parse_lines)

parse_lines-lines_of :
    (hs m : Multimap)
    → AllCarried hs
    → parse_lines (lines_of hs ++ [] ∷ []) m ≡ some (inserted hs m)
unfolding parse_lines
parse_lines-lines_of [] m all = no_header [] [] m tt
parse_lines-lines_of ((field, value) ∷ hs) m (carried, all) =
    rw (split_line field value carried, parse_lines)
      (parse_lines-lines_of hs (insert field value m) all)

lines_of-AllLack : (hs : Multimap) → AllCarried hs → AllLack line_end (lines_of hs ++ [] ∷ [])
lines_of-AllLack [] all = (tt, tt)
lines_of-AllLack ((field, value) ∷ hs) (carried, all) = (carried.0, lines_of-AllLack hs all)

inserted-values :
    (k : Bytes) (hs m : Multimap)
    → IsSorted m
    → values k (inserted hs m) ≡ values k m ++ values k hs
unfolding values
inserted-values k [] m s = sym (append-nil (values k m))
inserted-values k ((field, value) ∷ hs) m s =
    inserted-values k hs (insert field value m) (insert-IsSorted field value m s)
    ∙ ground (
      arith,
      values-insert k field value m s,
      append_assoc (values k m) (value ∷ []) (values k hs),
      append-nil (values k m),
    )

inserted-IsSorted : (hs m : Multimap) → IsSorted m → IsSorted (inserted hs m)
inserted-IsSorted [] m s = s
inserted-IsSorted ((field, value) ∷ hs) m s =
    inserted-IsSorted hs (insert field value m) (insert-IsSorted field value m s)

-- From a block of a status line and header lines that were made by `MakeHttpHeaderLine`, none with
-- a line end inside, no status line, field or value with a separator inside and no value empty, the
-- first call of `GetResponseHeaders` since the start returns a sorted multimap that has, for each
-- field, exactly the values received for it, in the order of their lines.
pub get_response_headers-block :
    (h : HttpConnection) (status : Bytes) (hs : Multimap)
    → h.has_parsed_response_headers ≡ false
    → h.response_headers ≡ []
    → h.response_header ≡ block status hs
    → Lacks line_end status
    → Lacks field_separator status
    → AllCarried hs
    → (m : Multimap) × (get_response_headers h
        ≡ some (record h { has_parsed_response_headers = true; response_headers = m }, m))
      × IsSorted m
      × ((k : Bytes) → values k m ≡ values k hs)
unfolding get_response_headers parse_response_headers values
get_response_headers-block h status hs fresh empty received whole plain all =
    let lines = status ∷ lines_of hs ++ [] ∷ [] in
    let cut : split_string h.response_header line_end ≡ some lines = rw received (
      ap (λ t. split_string t line_end) (sym (append-nil (terminated line_end lines)))
      ∙ split_string-terminated b'\r' b'\n' lines [] return-ne-newline
          (whole, lines_of-AllLack hs all) tt
      ∙ ap some (append-nil lines)) in
    let parsed : parse_lines lines h.response_headers ≡ some (inserted hs []) =
      rw empty
        (no_header status (lines_of hs ++ [] ∷ []) [] plain ∙ parse_lines-lines_of hs [] all) in
    (
      inserted hs [],
      ground (arith, fresh, cut, parsed),
      inserted-IsSorted hs [] tt,
      λ k. inserted-values k hs [] tt,
    )

cut_text :
    (field front back : Bytes)
    → terminated field_separator (field ∷ front ∷ []) ++ back
      ≡ field ++ (field_separator ++ (front ++ (field_separator ++ back)))
cut_text field front back =
    append_assoc field (field_separator ++ (front ++ (field_separator ++ []))) back
    ∙ ap (λ t. field ++ (field_separator ++ t)) (append_assoc front field_separator back)

-- A value that holds the separator itself is cut there: of the line `field: front: back`, with no
-- separator in the field or in the front, the rest behind the front is dropped.
pub parse_lines_cut :
    (field front back : Bytes) (m : Multimap)
    → Lacks field_separator field
    → Lacks field_separator front
    → parse_lines (make_http_header_line field (front ++ (field_separator ++ back)) ∷ []) m
      ≡ some (insert field front m)
unfolding parse_lines make_http_header_line
parse_lines_cut field front back m field_lacks front_lacks =
    let (qs, run) =
      split_string-prefix b':' b' ' (field ∷ front ∷ []) back colon-ne-space
        (field_lacks, (front_lacks, tt)) in
    rw (
      append_assoc field field_separator (front ++ (field_separator ++ back)),
      ← cut_text field front back,
      run,
      parse_lines,
    )

-- A header with an empty value, and no separator in its field, makes no header.
parse_lines_empty :
    (field : Bytes) (m : Multimap)
    → Lacks field_separator field
    → parse_lines (make_http_header_line field [] ∷ []) m ≡ some m
unfolding parse_lines make_http_header_line
parse_lines_empty field m lacks =
    rw
      (split_string-terminated b':' b' ' (field ∷ []) [] colon-ne-space (lacks, tt) tt, parse_lines)

get_response_headers_marks :
    (h later : HttpConnection) (m : Multimap)
    → get_response_headers h ≡ some (later, m)
    → (later.has_parsed_response_headers ≡ true) × (later.response_headers ≡ m)
get_response_headers_marks h later m e =
    let (m', total) = get_response_headers_total h in (ground (arith, total), ground (arith, total))

-- Once `GetResponseHeaders` has been called, headers that arrive later are not in what it returns,
-- until the connection is started again: then it holds nothing and parses anew.
get_response_headers_stale :
    (client : Client) (h later : HttpConnection) (m : Multimap) (piece : Bytes)
    → get_response_headers h ≡ some (later, m)
    → (get_response_headers (on_base (λ c. (write_header client c piece).0) later)
        ≡ some (on_base (λ c. (write_header client c piece).0) later, m))
      × (get_response_headers (will_start_http later)
          ≡ some (record (will_start_http later) { has_parsed_response_headers = true }, []))
unfolding get_response_headers on_base will_start_http parse_response_headers split_string
    split_loop
get_response_headers_stale client h later m piece e =
    let (marked, same) = get_response_headers_marks h later m e in
    (ground (arith, marked, same), refl)
