-- ===== src/Form/Options.antt =====
-- `CreateOptions` against a reading of the options that libcurl documents.
use curlion.Common.{
  ◌≡◌, refl, sym, ap, ◌∙◌, Option, none, some, List, [], ◌∷◌, ◌++◌, append_assoc, append-nil, Bytes,
  length, take, take_all, is_empty, if◌then◌else◌, arith,
}
use curlion.Curl.{c_str}
use curlion.Form.State.{
  File, Part, FormOption, ptrname, ptrcontents, file, filename, contenttype, contentslength, end,
  when_filled, file_options, create_options,
}
use curlion.Form.Contents.{
  contents_of, contents_sent, options_of, when_filled-append, contents_of-create_options,
}

-- What is done to the last file of a list.
abbrev on_last : (File → File) → List File → List File
on_last f [] = []
on_last f (x ∷ []) = f x ∷ []
on_last f (x ∷ y ∷ r) = x ∷ on_last f (y ∷ r)

-- A name or a content names the part's; a file begins a new file, and a file name or a content type
-- is of the file before it. The array ends at `end`; with none, it is read past its end.
pub read_options : List FormOption → Part → Option Part
read_options [] p = none
read_options (end ∷ r) p = some p
read_options (ptrname s ∷ r) p = read_options r (record p { name = s })
read_options (ptrcontents s ∷ r) p = read_options r (record p { content = s })
read_options (contentslength n ∷ r) p = read_options r (record p { content = take n p.content })
read_options (file s ∷ r) p =
    read_options r
      (record p { files = p.files ++ record { path = s; name = []; content_type = [] } ∷ [] })
read_options (filename s ∷ r) p =
    read_options r (record p { files = on_last (λ f. record f { name = s }) p.files })
read_options (contenttype s ∷ r) p =
    read_options r (record p { files = on_last (λ f. record f { content_type = s }) p.files })

abbrev pub empty_part : Part
empty_part = record { name = []; content = []; files = [] }

-- No string that goes to libcurl as a C string has a NUL inside.
abbrev IsText : Bytes → Type 0
IsText s = c_str s ≡ s

abbrev FilesAreText : List File → Type 0
FilesAreText [] = Unit {0}
FilesAreText (f ∷ files) =
    IsText f.path × IsText f.name × IsText f.content_type × FilesAreText files

abbrev IsTextPart : Part → Type 0
IsTextPart p = IsText p.name × FilesAreText p.files

-- The content has priority over the files.
abbrev pub sent : Part → Part
sent p = record p { files = if is_empty p.content then p.files else [] }

on_last-append :
    (f : File → File) (xs : List File) (x : File) → on_last f (xs ++ x ∷ []) ≡ xs ++ f x ∷ []
on_last-append f [] x = refl
on_last-append f (y ∷ []) x = refl
on_last-append f (y ∷ z ∷ r) x = ap (◌∷◌ y) (on_last-append f (z ∷ r) x)

file_options-append :
    (files : List File) (options : List FormOption)
    → file_options files options ≡ options ++ file_options files []
unfolding file_options
file_options-append [] options = sym (append-nil options)
file_options-append (f ∷ files) options =
    rw
      (
        when_filled-append f.name (filename (c_str f.name)) options (file (c_str f.path) ∷ []),
        when_filled-append f.content_type (contenttype (c_str f.content_type)) options
            (when_filled f.name (filename (c_str f.name)) (file (c_str f.path) ∷ [])),
        file_options-append files (options ++ options_of f),
        file_options-append files (options_of f),
      )
      (append_assoc options (options_of f) (file_options files []))

read_file :
    (path name content_type : Bytes) (rest : List FormOption) (p : Part)
    → read_options
        (when_filled content_type
            (contenttype content_type)
            (when_filled name (filename name) (file path ∷ []))
          ++ rest)
        p
      ≡ read_options rest (record p {
        files = p.files ++ record { path = path; name = name; content_type = content_type } ∷ [];
      })
unfolding read_options when_filled
read_file path [] [] rest p = refl
read_file path [] (c ∷ content_type) rest p =
    ap (λ l. read_options rest (record p { files = l })) (on_last-append _ p.files _)
read_file path (b ∷ name) [] rest p =
    ap (λ l. read_options rest (record p { files = l })) (on_last-append _ p.files _)
read_file path (b ∷ name) (c ∷ content_type) rest p = rw (on_last-append, on_last-append)

-- Reading the options of one file adds that file.
read_options-options_of :
    (f : File) (rest : List FormOption) (p : Part)
    → IsText f.path
    → IsText f.name
    → IsText f.content_type
    → read_options (options_of f ++ rest) p
      ≡ read_options rest (record p { files = p.files ++ f ∷ [] })
unfolding read_options when_filled
read_options-options_of f rest p path name content_type =
    rw (path, name, content_type) (read_file f.path f.name f.content_type rest p)

read_options-file_options :
    (files : List File) (p : Part)
    → FilesAreText files
    → read_options (file_options files [] ++ end ∷ []) p
      ≡ some (record p { files = p.files ++ files })
unfolding read_options file_options
read_options-file_options [] p text =
    ap (λ l. some (record p { files = l })) (sym (append-nil p.files))
read_options-file_options (f ∷ files) p (path, name, content_type, text) =
    rw
      (
        file_options-append files (options_of f),
        append_assoc (options_of f) (file_options files []) (end ∷ []),
        read_options-options_of f (file_options files [] ++ end ∷ []) p path name content_type,
      )
      (read_options-file_options files (record p { files = p.files ++ f ∷ [] }) text
        ∙ ap (λ l. some (record p { files = l })) (append_assoc p.files (f ∷ []) files))

read_described :
    (name content : Bytes) (files : List File)
    → IsText name
    → FilesAreText files
    → let p : Part = record { name = name; content = content; files = files } in
      read_options (create_options p) empty_part ≡ some (sent p)
unfolding create_options read_options
read_described name (b ∷ content) files text_name text =
    rw (text_name, take_all (length content) content (omega arith))
read_described name [] [] text_name text = rw text_name
read_described name [] (f ∷ files) text_name text =
    rw
      (
        file_options-append (f ∷ files) (ptrname (c_str name) ∷ []),
        text_name,
        append_assoc (ptrname name ∷ []) (file_options (f ∷ files) []) (end ∷ []),
      )
      (read_options-file_options (f ∷ files) (record empty_part { name = name }) text)

-- For a part with no NUL in its name and in the strings of its files: the array that
-- `CreateOptions` builds is ended, and reads back as the part, with its name, and its content, or
-- its files with their names and content types if the content is empty. It names the content of the
-- part, once, be it empty, unless the content is empty and there are files: then it names none.
pub read_options-create_options :
    (p : Part)
    → IsTextPart p
    → (read_options (create_options p) empty_part ≡ some (sent p))
      × (contents_of (create_options p) ≡ contents_sent p.content p.files)
read_options-create_options p (name, text) = (
  read_described p.name p.content p.files name text,
  contents_of-create_options p.name p.content p.files,
)
