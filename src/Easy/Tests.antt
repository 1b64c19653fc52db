-- ===== src/Easy/Tests.antt =====
-- A run of the example on a page that comes in two pieces.
use curlion.Common.{◌≡◌, refl, false, some, List, [], ◌∷◌, codes}
use curlion.Curl.{code}
use curlion.Connection.Callbacks.{Transfer, writes_header, writes_body}
use curlion.Connection.Quiet.{headers_of, bodies_of}
use curlion.Connection.Tests.{silent}
use curlion.Easy.State.{Program, main}
use curlion.Easy.Prints.{main-bodies_of}

abbrev page : List Transfer
page =
    writes_header (codes "A: b") 1 4
    ∷ writes_body (codes "<p>") 1 3
    ∷ writes_body (codes "hi") 1 2
    ∷ []

page-bodies_of : bodies_of page ≡ codes "<p>hi"
page-bodies_of = refl

main-bodies_of_example :
    (p : Program) × (main silent page (code 0) ≡ some (p, code 0, bodies_of page))
    × (p.connection.is_running ≡ false)
    × (p.connection.response_header ≡ headers_of page)
    × (p.connection.response_body ≡ [])
main-bodies_of_example = main-bodies_of silent page (code 0)
