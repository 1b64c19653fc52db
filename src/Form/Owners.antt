-- ===== src/Form/Owners.antt =====
-- http_form.cpp and http_connection.cpp: who owns a form, and its destructor.
use curlion.Common.{
  ℕ, suc, ◌≡◌, Bool, true, false, ◌||◌, Option, none, some, List, [], ◌∷◌, ◌++◌, ◌==◌,
  if◌then◌else◌,
}
use curlion.Form.State.{Part, FormLibrary, HttpForm, new_form, add_part}
use curlion.Http.State.{FormReference, HttpConnection, new_http, set_request_form}
use curlion.Http.Requests.{HttpSetting, request_form, apply_http}

abbrev pub holds : ℕ → List ℕ → Bool
holds f [] = false
holds f (g ∷ gs) = (g == f) || holds f gs

-- One pointer less.
abbrev pub remove_first : ℕ → List ℕ → List ℕ
remove_first f [] = []
remove_first f (g ∷ gs) = if g == f then gs else g ∷ remove_first f gs

abbrev pub refers_to : ℕ → Option FormReference → Bool
refers_to f none = false
refers_to f (some r) = r.form == f

abbrev pub any_refers : ℕ → List HttpConnection → Bool
any_refers f [] = false
any_refers f (c ∷ cs) = refers_to f c.form || any_refers f cs

abbrev pub is_form_setting : HttpSetting → Bool
is_form_setting (request_form form) = true
is_form_setting _ = false

-- `head` is the address of the first section of a form of libcurl's, if it has one.
module _ (lib : FormLibrary) (head : lib.Post → Option ℕ) where
  -- The forms of a program by their numbers, the shared pointers that it has to them, its HTTP
  -- connections, and the forms that were given to `curl_formfree`, the latest first. A form that is
  -- not made yet has the members of a new one.
  pub record Owners : Type 0 where
    pub forms : ℕ → HttpForm lib
    pub next_form : ℕ
    pub pointers : List ℕ
    pub connections : List HttpConnection
    pub freed : List ℕ

  unfoldable pub no_owners : Owners
  unfolding new_form
  no_owners = record {
    forms = λ f. new_form lib;
    next_form = 0;
    pointers = [];
    connections = [];
    freed = [];
  }

  abbrev pub is_owned : ℕ → Owners → Bool
  is_owned f m = holds f m.pointers || any_refers f m.connections

  -- Behind the loss of a `std::shared_ptr`: the last one destroys the form, and `~HttpForm` frees it.
  unfoldable pub let_go : ℕ → Owners → Owners
  let_go f m = if is_owned f m then m else record m { freed = f ∷ m.freed }

  unfoldable pub let_go_of : Option FormReference → Owners → Owners
  unfolding let_go
  let_go_of none m = m
  let_go_of (some r) m = let_go r.form m

  -- `std::make_shared<HttpForm>()`.
  unfoldable pub make_form : Owners → Owners
  make_form m = record m { next_form = suc m.next_form; pointers = m.next_form ∷ m.pointers }

  -- `AddPart` through a pointer.
  unfoldable pub add_part_to : ℕ → Part → Owners → Owners
  unfolding add_part
  add_part_to f part m = record m {
    forms = λ g. if f == g then (add_part lib (m.forms f) part).0 else m.forms g;
  }

  unfoldable pub drop_pointer : ℕ → Owners → Owners
  unfolding let_go
  drop_pointer f m = let_go f (record m { pointers = remove_first f m.pointers })

  -- A shared pointer with the form's `GetHandle`.
  abbrev pub reference : ℕ → Owners → FormReference
  reference f m = record { form = f; handle = head (m.forms f).handle }

  -- A connection between others becomes `c'`, and the pointer that it had is gone.
  unfoldable pub replace :
      List HttpConnection → HttpConnection → HttpConnection → List HttpConnection → Owners → Owners
  unfolding let_go_of
  replace before c c' after m = let_go_of c.form (record m { connections = before ++ c' ∷ after })

  -- The members of a connection are destroyed with it.
  unfoldable pub destroy :
      List HttpConnection → HttpConnection → List HttpConnection → Owners → Owners
  unfolding let_go_of
  destroy before c after m = let_go_of c.form (record m { connections = before ++ after })

  -- A step of the program. Forms are used by pointers that there are.
  pub data FormStep (m : Owners) : Owners → Type 0 where
    makes : FormStep m (make_form m)
    copies :
        (f : ℕ) → holds f m.pointers ≡ true → FormStep m (record m { pointers = f ∷ m.pointers })
    adds : (f : ℕ) (part : Part) → holds f m.pointers ≡ true → FormStep m (add_part_to f part m)
    drops : (f : ℕ) → holds f m.pointers ≡ true → FormStep m (drop_pointer f m)
    connects : FormStep m (record m { connections = new_http ∷ m.connections })
    sets_form :
        (before after : List HttpConnection) (c : HttpConnection) (f : ℕ)
        → m.connections ≡ before ++ c ∷ after
        → holds f m.pointers ≡ true
        → FormStep m (replace before c (set_request_form (some (reference f m)) c) after m)
    sets_no_form :
        (before after : List HttpConnection) (c : HttpConnection)
        → m.connections ≡ before ++ c ∷ after
        → FormStep m (replace before c (set_request_form none c) after m)
    calls :
        (before after : List HttpConnection) (c : HttpConnection) (s : HttpSetting)
        → m.connections ≡ before ++ c ∷ after
        → is_form_setting s ≡ false
        → FormStep m (replace before c (apply_http s c) after m)
    destroys :
        (before after : List HttpConnection) (c : HttpConnection)
        → m.connections ≡ before ++ c ∷ after
        → FormStep m (destroy before c after m)

  pub data FormReach (m : Owners) : Owners → Type 0 where
    here : FormReach m m
    next : {u v : Owners} → FormReach m u → FormStep u v → FormReach m v
