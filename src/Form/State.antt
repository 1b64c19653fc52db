-- ===== src/Form/State.antt =====
-- http_form.h and http_form.cpp: the parts of a form, `CreateOptions` and `AddPart`.
use curlion.Common.{ℕ, not, ◌||◌, List, [], ◌∷◌, ◌++◌, Bytes, length, is_empty, ◌==◌, if◌then◌else◌}
use curlion.Curl.{c_str}
use curlion.Error.{ErrorCondition, no_error, assign, curl_form_error_category}

pub record File : Type 0 where
  pub path : Bytes
  pub name : Bytes
  pub content_type : Bytes

pub record Part : Type 0 where
  pub name : Bytes
  pub content : Bytes
  pub files : List File

-- `curl_forms`: `CURLFORM_PTRNAME` and so on with their values.
pub data FormOption : Type 0 where
  ptrname ptrcontents file filename contenttype : Bytes → FormOption
  contentslength : ℕ → FormOption
  end : FormOption

unfoldable pub when_filled : Bytes → FormOption → List FormOption → List FormOption
when_filled s option options = if is_empty s then options else options ++ option ∷ []

-- The loop over the files.
unfoldable pub file_options : List File → List FormOption → List FormOption
unfolding when_filled c_str
file_options [] options = options
file_options (f ∷ files) options = file_options files (
    when_filled f.content_type (contenttype (c_str f.content_type))
      (when_filled f.name (filename (c_str f.name)) (options ++ file (c_str f.path) ∷ [])))

unfoldable pub create_options : Part → List FormOption
unfolding file_options c_str
create_options part =
    let named = ptrname (c_str part.name) ∷ [] in
    let described =
      if not (is_empty part.content) || is_empty part.files
      then named ++ ptrcontents part.content ∷ contentslength (length part.content) ∷ []
      else file_options part.files named in
    described ++ end ∷ []

-- `curl_formadd` is libcurl's: it takes an array of options and the form so far, and returns the
-- form and a code. By its documentation a call with code 0, `CURL_FORMADD_OK`, adds the section
-- that the array describes, and another code adds nothing.
pub record FormLibrary : Type 1 where
  pub Post : Type 0
  pub empty : Post
  pub formadd : List FormOption → Post → Post × ℕ

module _ (lib : FormLibrary) where
  pub record HttpForm : Type 0 where
    pub handle : lib.Post
    pub parts : List Part

  unfoldable pub new_form : HttpForm
  new_form = record { handle = lib.empty; parts = [] }

  unfoldable pub add_part : HttpForm → Part → HttpForm × ErrorCondition
  add_part form part =
      let (handle, result) = lib.formadd (create_options part) form.handle in
      if result == 0
      then (record { handle = handle; parts = form.parts ++ part ∷ [] }, no_error)
      else (record { handle = handle; parts = form.parts }, assign result curl_form_error_category)
