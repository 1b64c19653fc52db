-- ===== src/Form/SharedTests.antt =====
-- A form of one part that two connections share.
use curlion.Common.{
  ℕ, Bool, true, false, ◌∙◌, if◌then◌else◌, ◌<◌, ◌≡◌, refl, not, Option, none, some, List, [], ◌∷◌,
  ◌++◌,
}
use curlion.Curl.{CurlOption, in_force, httppost}
use curlion.Form.State.{FormOption}
use curlion.Http.State.{FormReference, HttpConnection, new_http, set_request_form}
use curlion.Form.Owners.{
  Owners, no_owners, holds, is_owned, make_form, add_part_to, drop_pointer, reference, replace,
  makes, adds, drops, connects, sets_form, FormReach, here, next,
}
use curlion.Form.Lifetime.{Once}
use curlion.Form.Serving.{KeepsHead}
use curlion.Form.Shared.{FormReach-no_owners}
use curlion.Form.Tests.{picture, library}

abbrev first : List (List FormOption) → Option ℕ
first [] = none
first (section ∷ sections) = some 7

first-picky :
    (b : Bool) (section : List FormOption) (sections other : List (List FormOption))
    → let picked : List (List FormOption) × ℕ =
        if b then (section ∷ sections, 1) else (section ∷ other, 0) in
      first picked.0 ≡ some 7
first-picky true section sections other = refl
first-picky false section sections other = refl

library-KeepsHead : KeepsHead library first
library-KeepsHead options [] p e = absurd (cc)
library-KeepsHead options (section ∷ sections) p e =
    first-picky _ section sections (sections ++ options ∷ []) ∙ e

-- A form with a part, and two connections that have it.
abbrev filled : Owners library first
filled = add_part_to library first 0 picture (make_form library first (no_owners library first))

abbrev posting : HttpConnection
posting = set_request_form (some (reference library first 0 filled)) new_http

abbrev two : Owners library first
two = record filled { connections = new_http ∷ new_http ∷ [] }

abbrev one_set : Owners library first
one_set = replace library first [] new_http posting (new_http ∷ []) two

-- The program lets its pointer go.
abbrev shared : Owners library first
shared = drop_pointer library first 0 one_set

two-Reach : FormReach library first (no_owners library first) two
unfolding no_owners make_form add_part_to
two-Reach = next (next (next (next here makes) (adds 0 picture refl)) connects) connects

shared-Reach : FormReach library first (no_owners library first) shared
unfolding no_owners make_form add_part_to set_request_form new_http replace
shared-Reach =
    next (next two-Reach (sets_form [] (new_http ∷ []) new_http 0 refl refl)) (drops 0 refl)

FormReach-no_owners_example :
    Once shared.freed
    × ((f : ℕ)
        → f < shared.next_form
        → is_owned library first f shared ≡ not (holds f shared.freed))
    × ((before after : List HttpConnection) (c : HttpConnection) (p : ℕ)
        → shared.connections ≡ before ++ c ∷ after
        → in_force CurlOption.httppost c.handle ≡ some (httppost p)
        → (r : FormReference) × (c.form ≡ some r)
          × (first (shared.forms r.form).handle ≡ some p)
          × (holds r.form shared.freed ≡ false))
FormReach-no_owners_example =
    FormReach-no_owners library first library-KeepsHead shared shared-Reach
