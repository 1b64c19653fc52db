-- ===== src/Http/Text.antt =====
-- http_connection.cpp: `MakeHttpHeaderLine` and `SplitString`, and what they use of `std::string`.
use curlion.Common.{
  ℕ, zero, suc, ◌+◌, ◌-◌, Bool, true, false, ◌&&◌, Option, none, some, List, [], ◌∷◌, ◌++◌, Bytes,
  length, take, drop, is_empty, ltb, ◌==◌, if◌then◌else◌,
}

abbrev pub field_separator : Bytes
field_separator = b':' ∷ b' ' ∷ []

abbrev pub line_end : Bytes
line_end = b'\r' ∷ b'\n' ∷ []

unfoldable pub make_http_header_line : Bytes → Bytes → Bytes
make_http_header_line field value = (field ++ field_separator) ++ value

-- Whether a text begins with another.
unfoldable pub starts_with : Bytes → Bytes → Bool
starts_with [] s = true
starts_with (c ∷ d) [] = false
starts_with (c ∷ d) (b ∷ s) = b == c && starts_with d s

-- `find`, in what is left of the text from the index on; `none` is `npos`.
unfoldable pub find_from : Bytes → Bytes → ℕ → Option ℕ
find_from d [] i = if is_empty d then some i else none
find_from d (b ∷ s) i = if starts_with d (b ∷ s) then some i else find_from d s (i + 1)

unfoldable pub find : Bytes → Bytes → ℕ → Option ℕ
find s d begin_index =
    if ltb (length s) begin_index then none else find_from d (drop begin_index s) begin_index

unfoldable pub substr : Bytes → ℕ → ℕ → Bytes
substr s from n = take n (drop from s)

-- `end_index` in a round of the loop.
unfoldable pub end_of : Bytes → Option ℕ → ℕ
end_of s none = length s
end_of s (some i) = i

-- The `while` loop over `begin_index` and `splitted_strings`; `none` if the fuel runs out.
unfoldable pub split_loop : ℕ → Bytes → Bytes → ℕ → List Bytes → Option (List Bytes)
split_loop zero s d begin_index splitted_strings = none
split_loop (suc fuel) s d begin_index splitted_strings =
    let end_index = end_of s (find s d begin_index) in
    let rest =
      split_loop fuel s d (end_index + length d)
        (splitted_strings ++ substr s begin_index (end_index - begin_index) ∷ []) in
    if ltb begin_index (length s) then rest else some splitted_strings

-- Each round moves the index on, so one round more than there are bytes is enough.
unfoldable pub split_string : Bytes → Bytes → Option (List Bytes)
split_string s d = split_loop (suc (length s)) s d 0 []
