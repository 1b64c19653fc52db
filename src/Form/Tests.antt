-- ===== src/Form/Tests.antt =====
-- A form of two parts, with a libcurl that refuses a part without a name.
use curlion.Common.{
  ℕ, ◌≡◌, refl, Bool, true, false, some, List, [], ◌∷◌, ◌++◌, map, codes, if◌then◌else◌, arith,
}
use curlion.Curl.{c_str}
use curlion.Form.State.{Part, FormOption, ptrname, create_options, FormLibrary, new_form}
use curlion.Form.Options.{read_options, empty_part, sent, read_options-create_options}
use curlion.Form.Contents.{contents_of, contents_sent}
use curlion.Form.Parts.{FormLaws, accepted, add_parts, add_parts-new_form}

abbrev pub picture : Part
picture = record {
  name = codes "image";
  content = [];
  files = record { path = codes "/a"; name = codes "a"; content_type = [] } ∷ [];
}

abbrev nameless : Part
nameless = record { name = []; content = codes "x"; files = [] }

read_options-create_options_example :
    (read_options (create_options picture) empty_part ≡ some (sent picture))
    × (contents_of (create_options picture) ≡ contents_sent picture.content picture.files)
unfolding c_str
read_options-create_options_example =
    read_options-create_options picture (refl, ((refl, refl, refl, tt)))

abbrev is_nameless : List FormOption → Bool
is_nameless (ptrname [] ∷ r) = true
is_nameless options = false

abbrev picky : List FormOption → List (List FormOption) → List (List FormOption) × ℕ
picky options post = if is_nameless options then (post, 1) else (post ++ options ∷ [], 0)

abbrev pub library : FormLibrary
library = record { Post = List (List FormOption); empty = []; formadd = picky }

library-FormLaws : FormLaws library
library-FormLaws = record {
  arrays = λ post. post;
  arrays-empty = refl;
  added = λ options post h. ground arith;
  refused = λ options post h. ground arith;
}

add_parts-new_form_example :
    let (final, errors) = add_parts library (new_form library) (picture ∷ nameless ∷ []) in
    (library-FormLaws.arrays final.handle ≡ map create_options final.parts)
    × (final.parts ≡ accepted (picture ∷ nameless ∷ []) errors)
add_parts-new_form_example = add_parts-new_form library library-FormLaws (picture ∷ nameless ∷ [])
