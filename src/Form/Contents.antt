-- ===== src/Form/Contents.antt =====
-- `CreateOptions`: the options of one file, and the contents that an array names.
use curlion.Common.{◌≡◌, refl, ap, ◌∙◌, List, [], ◌∷◌, ◌++◌, append_assoc, append-nil, Bytes, arith}
use curlion.Curl.{c_str}
use curlion.Form.State.{
  File, FormOption, ptrname, ptrcontents, file, filename, contenttype, contentslength, end,
  when_filled, file_options, create_options,
}

-- The contents that an array names.
abbrev pub contents_of : List FormOption → List Bytes
contents_of [] = []
contents_of (ptrcontents s ∷ r) = s ∷ contents_of r
contents_of (ptrname s ∷ r) = contents_of r
contents_of (file s ∷ r) = contents_of r
contents_of (filename s ∷ r) = contents_of r
contents_of (contenttype s ∷ r) = contents_of r
contents_of (contentslength n ∷ r) = contents_of r
contents_of (end ∷ r) = contents_of r

-- A part is sent with its content, which may be empty, or else with its files.
abbrev pub contents_sent : Bytes → List File → List Bytes
contents_sent [] (f ∷ files) = []
contents_sent [] [] = [] ∷ []
contents_sent (b ∷ content) files = (b ∷ content) ∷ []

-- The options of one file, in the order in which they are appended.
abbrev pub options_of : File → List FormOption
options_of f =
    when_filled f.content_type (contenttype (c_str f.content_type))
      (when_filled f.name (filename (c_str f.name)) (file (c_str f.path) ∷ []))

pub when_filled-append :
    (s : Bytes) (o : FormOption) (xs ys : List FormOption)
    → when_filled s o (xs ++ ys) ≡ xs ++ when_filled s o ys
unfolding when_filled
when_filled-append [] o xs ys = refl
when_filled-append (b ∷ s) o xs ys = append_assoc xs ys (o ∷ [])

contents_of-append :
    (xs ys : List FormOption) → contents_of (xs ++ ys) ≡ contents_of xs ++ contents_of ys
contents_of-append [] ys = refl
contents_of-append (ptrcontents s ∷ xs) ys = ap (◌∷◌ s) (contents_of-append xs ys)
contents_of-append (ptrname s ∷ xs) ys = contents_of-append xs ys
contents_of-append (file s ∷ xs) ys = contents_of-append xs ys
contents_of-append (filename s ∷ xs) ys = contents_of-append xs ys
contents_of-append (contenttype s ∷ xs) ys = contents_of-append xs ys
contents_of-append (contentslength n ∷ xs) ys = contents_of-append xs ys
contents_of-append (end ∷ xs) ys = contents_of-append xs ys

contents_of-options_of : (f : File) → contents_of (options_of f) ≡ []
unfolding when_filled
contents_of-options_of f = ground arith

contents_of-file_options :
    (files : List File) (options : List FormOption)
    → contents_of (file_options files options) ≡ contents_of options
unfolding file_options when_filled
contents_of-file_options [] options = refl
contents_of-file_options (f ∷ files) options =
    rw
      (
        when_filled-append f.name (filename (c_str f.name)) options (file (c_str f.path) ∷ []),
        when_filled-append f.content_type (contenttype (c_str f.content_type)) options
            (when_filled f.name (filename (c_str f.name)) (file (c_str f.path) ∷ [])),
        contents_of-file_options files (options ++ options_of f),
        contents_of-append options (options_of f),
        contents_of-options_of f,
      )
      (append-nil (contents_of options))

pub contents_of-create_options :
    (name content : Bytes) (files : List File)
    → contents_of (create_options (record { name = name; content = content; files = files }))
      ≡ contents_sent content files
unfolding create_options
contents_of-create_options name (b ∷ content) files = refl
contents_of-create_options name [] [] = refl
contents_of-create_options name [] (f ∷ files) =
    contents_of-append (file_options (f ∷ files) (ptrname (c_str name) ∷ [])) (end ∷ [])
    ∙ rw (contents_of-file_options (f ∷ files) (ptrname (c_str name) ∷ [])) refl
