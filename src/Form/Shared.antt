-- ===== src/Form/Shared.antt =====
-- Histories of forms and of the connections that share them.
use curlion.Common.{
  ℕ, ◌≡◌, refl, subst, ◌<◌, ◌⊎◌, inr, true, false, not, Option, none, some, List, ◌∷◌, ◌++◌, arith,
  eqb_iff, eqb_refl,
}
use curlion.Curl.{CurlOption, httppost, in_force}
use curlion.Form.State.{FormLibrary}
use curlion.Http.State.{FormReference, HttpConnection, new_http, set_request_form}
use curlion.Http.Requests.{HttpSetting, request_form, apply_http, new_http-IsHttpWired}
use curlion.Form.Owners.{
  holds, remove_first, refers_to, Owners, no_owners, is_owned, let_go_of, make_form, add_part_to,
  drop_pointer, reference, replace, destroy, FormStep, makes, copies, adds, drops, connects,
  sets_form, sets_no_form, calls, destroys, FormReach, here, next,
}
use curlion.Form.Lifetime.{
  Once, IsTidy, IsLess, any_refers-middle, any_refers-append, holds-remove_first, remove_first-less,
  let_go_of-IsTidy, make_form-IsTidy, copy-IsTidy,
}
use curlion.Form.Serving.{
  KeepsHead, IsServed, AllServed, AllServed-middle, AllServed-append, AllServed-insert,
  add_part_to-AllServed, set_request_form-IsServed, apply_http-IsServed, apply_http-form,
  let_go_of-same, IsServed-head,
}

module _ (lib : FormLibrary) (head : lib.Post → Option ℕ) where
  record IsSound (m : Owners lib head) : Type 0 where
    pub tidy : IsTidy lib head m
    pub served : AllServed lib head m.forms m.connections

  let_go_of-IsSound :
      (old : Option FormReference) (m m' : Owners lib head)
      → IsTidy lib head m
      → IsLess lib head old m m'
      → AllServed lib head m'.forms m'.connections
      → IsSound (let_go_of lib head old m')
  let_go_of-IsSound old m m' t l s =
      let (forms, connections) = let_go_of-same lib head old m' in
      record { tidy = let_go_of-IsTidy lib head old m m' t l; served = rw (forms, connections) s }

  module _ (m : Owners lib head) (i : IsSound m) (before after : List HttpConnection)
      (c : HttpConnection) (at : m.connections ≡ before ++ c ∷ after) where
    middle-IsServed : IsServed lib head m.forms c
    middle-IsServed =
        AllServed-middle lib head m.forms before after c
          (subst (AllServed lib head m.forms) at i.served)

    -- A connection between others may change if the form that it then has was owned before.
    replace-IsSound :
        (c' : HttpConnection)
        → ((f : ℕ) → refers_to f c'.form ≡ true → is_owned lib head f m ≡ true)
        → IsServed lib head m.forms c'
        → IsSound (replace lib head before c c' after m)
    unfolding replace
    replace-IsSound c' new s =
        let_go_of-IsSound c.form m (record m { connections = before ++ c' ∷ after }) i.tidy
          (record {
            freed = refl;
            next_form = refl;
            less = λ f h. ground (
              arith,
              new f,
              at,
              any_refers-middle f before after c,
              any_refers-middle f before after c',
            );
            others = λ f other h. ground (
              arith,
              at,
              any_refers-middle f before after c,
              any_refers-middle f before after c',
            );
            had = λ f h. ground (arith, at, any_refers-middle f before after c);
          })
          (AllServed-insert lib head m.forms before after c' s (
            AllServed-append lib head m.forms before after c
              (subst (AllServed lib head m.forms) at i.served)))

    destroy-IsSound : IsSound (destroy lib head before c after m)
    unfolding destroy
    destroy-IsSound =
        let_go_of-IsSound c.form m (record m { connections = before ++ after }) i.tidy
          (record {
            freed = refl;
            next_form = refl;
            less = λ f h.
                ground
                  (arith, at, any_refers-middle f before after c, any_refers-append f before after);
            others = λ f other h.
                ground
                  (arith, at, any_refers-middle f before after c, any_refers-append f before after);
            had = λ f h. ground (arith, at, any_refers-middle f before after c);
          })
          (AllServed-append lib head m.forms before after c
            (subst (AllServed lib head m.forms) at i.served))

    -- A call that takes no other form.
    apply_http-IsSound :
        (s : HttpSetting)
        → ((apply_http s c).form ≡ c.form) ⊎ ((apply_http s c).form ≡ none)
        → IsSound (replace lib head before c (apply_http s c) after m)
    apply_http-IsSound s e =
        replace-IsSound (apply_http s c)
          (λ f h. ground (arith, at, any_refers-middle f before after c, e))
          (apply_http-IsServed lib head m.forms s c e middle-IsServed)

  drop_pointer-IsSound :
      (m : Owners lib head) (f : ℕ)
      → holds f m.pointers ≡ true
      → IsSound m
      → IsSound (drop_pointer lib head f m)
  unfolding drop_pointer let_go_of
  drop_pointer-IsSound m f held i =
      let_go_of-IsSound (some (record { form = f; handle = none })) m
        (record m { pointers = remove_first f m.pointers }) i.tidy
        (record {
          freed = refl;
          next_form = refl;
          less = λ g h. ground (arith, remove_first-less f g m.pointers);
          others = λ g other h. ground (arith, holds-remove_first f g m.pointers other);
          had = λ g h. rw (← (eqb_iff f g).0 h) (ground (arith, held));
        })
        i.served

  new_http-IsServed : (forms : ℕ → _) → IsServed lib head forms new_http
  unfolding new_http
  new_http-IsServed forms = record { wired = new_http-IsHttpWired; current = λ r e. absurd (cc) }

  module _ (keeps : KeepsHead lib head) where
    FormStep-IsSound : {m m' : Owners lib head} → FormStep lib head m m' → IsSound m → IsSound m'
    unfolding make_form add_part_to set_request_form apply_http new_http
    FormStep-IsSound {m} makes i = record {
      tidy = make_form-IsTidy lib head m i.tidy;
      served = i.served;
    }
    FormStep-IsSound {m} (copies f held) i = record {
      tidy = copy-IsTidy lib head m f held i.tidy;
      served = i.served;
    }
    FormStep-IsSound {m} (adds f part held) i = record {
      tidy = record {
        once = i.tidy.once;
        alive = i.tidy.alive;
        known = i.tidy.known;
        kept = i.tidy.kept;
      };
      served = add_part_to-AllServed lib head keeps f part m m.connections i.served;
    }
    FormStep-IsSound {m} (drops f held) i = drop_pointer-IsSound m f held i
    FormStep-IsSound {m} connects i = record {
      tidy = record {
        once = i.tidy.once;
        alive = i.tidy.alive;
        known = i.tidy.known;
        kept = i.tidy.kept;
      };
      served = (new_http-IsServed m.forms, i.served);
    }
    FormStep-IsSound {m} (sets_form before after c f at held) i =
        replace-IsSound m i before after c at (set_request_form (some (reference lib head f m)) c)
          (λ g h. rw (← (eqb_iff f g).0 h) (ground (arith, held)))
          (set_request_form-IsServed lib head m f c (middle-IsServed m i before after c at))
    FormStep-IsSound {m} (sets_no_form before after c at) i =
        apply_http-IsSound m i before after c at (request_form none) (inr refl)
    FormStep-IsSound {m} (calls before after c s at other) i =
        apply_http-IsSound m i before after c at s (apply_http-form s c other)
    FormStep-IsSound {m} (destroys before after c at) i = destroy-IsSound m i before after c at

    FormReach-IsSound : {m m' : Owners lib head} → FormReach lib head m m' → IsSound m → IsSound m'
    FormReach-IsSound here i = i
    FormReach-IsSound (next r step) i = FormStep-IsSound step (FormReach-IsSound r i)

    no_owners-IsSound : IsSound (no_owners lib head)
    unfolding no_owners
    no_owners-IsSound = record {
      tidy = record {
        once = tt;
        alive = λ f h. refl;
        known = λ f h. absurd (cc);
        kept = λ f h. absurd (omega arith);
      };
      served = tt;
    }

    -- With a `curl_formadd` that puts sections behind those that a form has. After any steps of a
    -- program that makes forms, copies and drops its shared pointers to them, adds parts, sets forms
    -- on any number of HTTP connections, calls their other public methods and destroys them: no form
    -- was given to `curl_formfree` twice; each form that was made either has an owner or was freed,
    -- and not both; and where libcurl has a form for a connection, it is the one that the connection
    -- holds, which is not freed, from the first section that this form has now.
    pub FormReach-no_owners :
        (m : Owners lib head)
        → FormReach lib head (no_owners lib head) m
        → Once m.freed
          × ((f : ℕ) → f < m.next_form → is_owned lib head f m ≡ not (holds f m.freed))
          × ((before after : List HttpConnection) (c : HttpConnection) (p : ℕ)
              → m.connections ≡ before ++ c ∷ after
              → in_force CurlOption.httppost c.handle ≡ some (httppost p)
              → (r : FormReference) × (c.form ≡ some r)
                × (head (m.forms r.form).handle ≡ some p)
                × (holds r.form m.freed ≡ false))
    FormReach-no_owners m reach =
        let i = FormReach-IsSound reach no_owners-IsSound in
        (
          i.tidy.once,
          λ f h. ground (arith, i.tidy.kept f h, i.tidy.alive f),
          λ before after c p at e.
              let (r, its, value) =
                IsServed-head lib head m.forms c p (middle-IsServed m i before after c at) e in
              let owned : is_owned lib head r.form m ≡ true =
                ground (arith, at, any_refers-middle r.form before after c, its, eqb_refl r.form) in
              (r, its, value, i.tidy.alive r.form owned),
        )
