-- ===== src/Form/Serving.antt =====
-- What libcurl has for the form of a connection, while forms are made, changed and let go of.
use curlion.Common.{
  ℕ, ◌≡◌, refl, sym, ◌∙◌, subst, ◌⊎◌, inl, inr, false, Option, none, some, List, [], ◌∷◌, ◌++◌,
  ◌==◌, arith, Bool-cases, eqb_iff, some_eq, Option-cases,
}
use curlion.Curl.{CurlOption, httppost, in_force}
use curlion.Form.State.{Part, FormOption, FormLibrary, HttpForm, create_options, add_part}
use curlion.Http.State.{
  FormReference, HttpConnection, set_request_form, form_value, reset_http_options,
}
use curlion.Http.Requests.{
  HttpSetting, plain, request_form, http_options_reset, apply_http, IsHttpWired,
  apply_http-IsHttpWired,
}
use curlion.Connection.Calls.{options_reset, debug_callback}
use curlion.Form.Owners.{Owners, let_go, let_go_of, reference, add_part_to, is_form_setting}

reset_http_options-form :
    (h : HttpConnection)
    → ((reset_http_options h).form ≡ h.form) ⊎ ((reset_http_options h).form ≡ none)
unfolding reset_http_options
reset_http_options-form h = elim (Bool-cases h.is_running) [
  | inl running ↦ inl (ground (arith, running))
  | inr idle ↦ inr (ground (arith, idle))
]

-- Only `SetRequestForm` gives a connection another form.
pub apply_http-form :
    (s : HttpSetting) (h : HttpConnection)
    → is_form_setting s ≡ false
    → ((apply_http s h).form ≡ h.form) ⊎ ((apply_http s h).form ≡ none)
unfolding apply_http
apply_http-form (plain options_reset) h e = reset_http_options-form h
apply_http-form (plain (debug_callback none)) h e = inl refl
apply_http-form (plain (debug_callback (some f))) h e = inl refl
apply_http-form (plain s) h e = inl refl
apply_http-form http_options_reset h e = reset_http_options-form h
apply_http-form (request_form f) h e = absurd (cc)
apply_http-form _ h e = inl refl

module _ (lib : FormLibrary) (head : lib.Post → Option ℕ) where
  -- libcurl documents that `curl_formadd` puts a section behind those that a form has.
  abbrev pub KeepsHead : Type 0
  KeepsHead =
      (options : List FormOption) (post : lib.Post) (p : ℕ)
      → head post ≡ some p
      → head (lib.formadd options post).0 ≡ some p

  -- The pointer that a connection took from its form is null, or still points to the form.
  abbrev IsCurrent : (ℕ → HttpForm lib) → ℕ → Option ℕ → Type 0
  IsCurrent forms f handle = (handle ≡ none) ⊎ (head (forms f).handle ≡ handle)

  pub record IsServed (forms : ℕ → HttpForm lib) (c : HttpConnection) : Type 0 where
    pub wired : IsHttpWired c
    pub current : (r : FormReference) → c.form ≡ some r → IsCurrent forms r.form r.handle

  abbrev pub AllServed : (ℕ → HttpForm lib) → List HttpConnection → Type 0
  AllServed forms [] = Unit {0}
  AllServed forms (c ∷ cs) = IsServed forms c × AllServed forms cs

  pub AllServed-middle :
      (forms : ℕ → HttpForm lib) (before after : List HttpConnection) (c : HttpConnection)
      → AllServed forms (before ++ c ∷ after)
      → IsServed forms c
  AllServed-middle forms [] after c (s, rest) = s
  AllServed-middle forms (b ∷ before) after c (s, rest) = AllServed-middle forms before after c rest

  pub AllServed-append :
      (forms : ℕ → HttpForm lib) (before after : List HttpConnection) (c : HttpConnection)
      → AllServed forms (before ++ c ∷ after)
      → AllServed forms (before ++ after)
  AllServed-append forms [] after c (s, rest) = rest
  AllServed-append forms (b ∷ before) after c (s, rest) =
      (s, AllServed-append forms before after c rest)

  pub AllServed-insert :
      (forms : ℕ → HttpForm lib) (before after : List HttpConnection) (c : HttpConnection)
      → IsServed forms c
      → AllServed forms (before ++ after)
      → AllServed forms (before ++ c ∷ after)
  AllServed-insert forms [] after c s rest = (s, rest)
  AllServed-insert forms (b ∷ before) after c s (t, rest) =
      (t, AllServed-insert forms before after c s rest)

  -- A part that is added.
  add_part-head :
      (keeps : KeepsHead) (form : HttpForm lib) (part : Part) (p : ℕ)
      → head form.handle ≡ some p
      → head (add_part lib form part).0.handle ≡ some p
  unfolding add_part
  add_part-head keeps form part p e =
      let kept = keeps (create_options part) form.handle p e in ground (arith, kept)

  add_part_to-IsCurrent :
      (keeps : KeepsHead) (f : ℕ) (part : Part) (m : Owners lib head) (g : ℕ) (handle : Option ℕ)
      → IsCurrent m.forms g handle
      → IsCurrent (add_part_to lib head f part m).forms g handle
  unfolding add_part_to
  add_part_to-IsCurrent keeps f part m g none i = inl refl
  add_part_to-IsCurrent keeps f part m g (some p) (inl e) = absurd (cc)
  add_part_to-IsCurrent keeps f part m g (some p) (inr e) =
      let kept = add_part-head keeps (m.forms g) part p e in
      inr (elim (Bool-cases (f == g)) [
        | inl same ↦ rw (same, (eqb_iff f g).0 same) kept
        | inr other ↦ rw other e
      ])

  pub add_part_to-AllServed :
      (keeps : KeepsHead) (f : ℕ) (part : Part) (m : Owners lib head) (cs : List HttpConnection)
      → AllServed m.forms cs
      → AllServed (add_part_to lib head f part m).forms cs
  add_part_to-AllServed keeps f part m [] i = tt
  add_part_to-AllServed keeps f part m (c ∷ cs) (s, rest) = (
    record {
      wired = s.wired;
      current = λ r e. add_part_to-IsCurrent keeps f part m r.form r.handle (s.current r e);
    },
    add_part_to-AllServed keeps f part m cs rest,
  )

  -- Public calls, of `SetRequestForm` and of the others.
  pub set_request_form-IsServed :
      (m : Owners lib head) (f : ℕ) (c : HttpConnection)
      → IsServed m.forms c
      → IsServed m.forms (set_request_form (some (reference lib head f m)) c)
  unfolding set_request_form apply_http
  set_request_form-IsServed m f c s = record {
    wired = apply_http-IsHttpWired (request_form (some (reference lib head f m))) c s.wired;
    current = λ r e. subst (λ x. IsCurrent m.forms x.form x.handle) (some_eq e) (inr refl);
  }

  pub apply_http-IsServed :
      (forms : ℕ → HttpForm lib) (s : HttpSetting) (c : HttpConnection)
      → ((apply_http s c).form ≡ c.form) ⊎ ((apply_http s c).form ≡ none)
      → IsServed forms c
      → IsServed forms (apply_http s c)
  apply_http-IsServed forms s c (inl same) i = record {
    wired = apply_http-IsHttpWired s c i.wired;
    current = λ r e. i.current r (sym same ∙ e);
  }
  apply_http-IsServed forms s c (inr gone) i = record {
    wired = apply_http-IsHttpWired s c i.wired;
    current = λ r e. absurd (cc (gone, e));
  }

  -- Letting a pointer go changes no form that is not freed, and no connection.
  pub let_go_of-same :
      (old : Option FormReference) (m : Owners lib head)
      → ((let_go_of lib head old m).forms ≡ m.forms)
        × ((let_go_of lib head old m).connections ≡ m.connections)
  unfolding let_go_of let_go
  let_go_of-same none m = (refl, refl)
  let_go_of-same (some r) m = (ground arith, ground arith)

  value-handle :
      (form : Option FormReference) (p : ℕ)
      → form_value form ≡ httppost p
      → (r : FormReference) × (form ≡ some r) × (r.handle ≡ some p)
  unfolding form_value
  value-handle none p e = absurd (cc)
  value-handle (some r) p e = elim (Option-cases r.handle) [
    | inl null_handle ↦ absurd (cc (rw null_handle at e))
    | inr (q, its) ↦ (r, refl, cc (rw its at e))
  ]

  -- A form that libcurl has is the one of the connection, and begins with the section that it has now.
  pub IsServed-head :
      (forms : ℕ → HttpForm lib) (c : HttpConnection) (p : ℕ)
      → IsServed forms c
      → in_force CurlOption.httppost c.handle ≡ some (httppost p)
      → (r : FormReference) × (c.form ≡ some r) × (head (forms r.form).handle ≡ some p)
  IsServed-head forms c p s e = elim s.wired.owns_form [
    | inr (unset, no_form) ↦ absurd (cc (unset, e))
    | inl set ↦
        let (r, its, handle) = value-handle c.form p (some_eq (sym set ∙ e)) in
        (
          r,
          its,
          elim (s.current r its) [
            | inl null_handle ↦ absurd (cc (null_handle, handle))
            | inr same ↦ same ∙ handle
          ],
        )
  ]
