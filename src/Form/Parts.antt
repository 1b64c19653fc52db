-- ===== src/Form/Parts.antt =====
-- `AddPart`: the parts that a form retains are those that libcurl's form points into.
use native.Mathlib.Decide.{ℕ_discrete}
use curlion.Common.{
  ◌≡◌, refl, sym, ap, ◌∙◌, ◌≢◌, List, [], ◌∷◌, ◌++◌, map, append_assoc, append-nil, ◌==◌,
  if◌then◌else◌, eqb_iff, ne→eqb,
}
use curlion.Error.{ErrorCondition, no_error, assign, curl_form_error_category}
use curlion.Form.State.{Part, FormOption, create_options, FormLibrary, HttpForm, new_form, add_part}

-- What libcurl documents of `curl_formadd`, by the arrays whose sections a form has. It keeps the
-- pointers that are in them.
pub record FormLaws (lib : FormLibrary) : Type 0 where
  pub arrays : lib.Post → List (List FormOption)
  pub arrays-empty : arrays lib.empty ≡ []
  pub added :
      (options : List FormOption) (post : lib.Post)
      → (lib.formadd options post).1 ≡ 0
      → arrays (lib.formadd options post).0 ≡ arrays post ++ options ∷ []
  pub refused :
      (options : List FormOption) (post : lib.Post)
      → (lib.formadd options post).1 ≢ 0
      → arrays (lib.formadd options post).0 ≡ arrays post

-- The parts that were added without an error.
abbrev pub accepted : List Part → List ErrorCondition → List Part
accepted [] errors = []
accepted (p ∷ ps) [] = []
accepted (p ∷ ps) (e ∷ errors) = if e.value == 0 then p ∷ accepted ps errors else accepted ps errors

module _ (lib : FormLibrary) where
  pub add_parts : HttpForm lib → List Part → HttpForm lib × List ErrorCondition
  add_parts form [] = (form, [])
  add_parts form (p ∷ ps) =
      let (form', error) = add_part lib form p in
      let (form'', errors) = add_parts form' ps in (form'', error ∷ errors)

  add_part_done :
      (form : HttpForm lib) (p : Part)
      → (lib.formadd (create_options p) form.handle).1 ≡ 0
      → add_part lib form p ≡ (
        record {
          handle = (lib.formadd (create_options p) form.handle).0;
          parts = form.parts ++ p ∷ [];
        },
        no_error,
      )
  unfolding add_part
  add_part_done form p done = rw ((eqb_iff _ 0).1 done)

  add_part_failed :
      (form : HttpForm lib) (p : Part)
      → (lib.formadd (create_options p) form.handle).1 ≢ 0
      → add_part lib form p ≡ (
        record { handle = (lib.formadd (create_options p) form.handle).0; parts = form.parts },
        assign (lib.formadd (create_options p) form.handle).1 curl_form_error_category,
      )
  unfolding add_part
  add_part_failed form p failed = rw (ne→eqb _ 0 failed)

module _ (lib : FormLibrary) (laws : FormLaws lib) where
  abbrev Retains : HttpForm lib → Type 0
  Retains form = laws.arrays form.handle ≡ map create_options form.parts

  map-concat :
      (ps : List Part) (p : Part)
      → map create_options (ps ++ p ∷ []) ≡ map create_options ps ++ create_options p ∷ []
  map-concat [] p = refl
  map-concat (q ∷ ps) p = ap (◌∷◌ (create_options q)) (map-concat ps p)

  -- One part of a run: the form stays retained, and grows by what is accepted.
  abbrev Grows : HttpForm lib → List Part → Type 0
  Grows form ps =
      let (final, errors) = add_parts lib form ps in
      Retains final × (final.parts ≡ form.parts ++ accepted ps errors)

  add_parts-Grows : (form : HttpForm lib) (ps : List Part) → Retains form → Grows form ps
  unfolding add_parts
  add_parts-Grows form [] r = (r, sym (append-nil form.parts))
  add_parts-Grows form (p ∷ ps) r =
      elim (ℕ_discrete (lib.formadd (create_options p) form.handle).1 0) [
        | yes done ↦
            let grown : HttpForm lib = record {
              handle = (lib.formadd (create_options p) form.handle).0;
              parts = form.parts ++ p ∷ [];
            } in
            let (kept, parts) = add_parts-Grows grown ps (
              laws.added (create_options p) form.handle done
              ∙ rw r (sym (map-concat form.parts p))) in
            rw (add_part_done lib form p done) (kept, parts ∙ append_assoc form.parts (p ∷ []) _)
        | no failed ↦
            let same : HttpForm lib = record {
              handle = (lib.formadd (create_options p) form.handle).0;
              parts = form.parts;
            } in
            let (kept, parts) =
              add_parts-Grows same ps (laws.refused (create_options p) form.handle failed ∙ r) in
            rw (add_part_failed lib form p failed)
              (rw (ne→eqb (lib.formadd (create_options p) form.handle).1 0 failed) (kept, parts))
      ]

  -- With a `curl_formadd` that adds a section or refuses it as libcurl documents: after any calls
  -- of `AddPart` on a new form, the form retains the parts that were added without an error, in
  -- order, and the arrays that libcurl's form points into are those of exactly these parts, so no
  -- part that libcurl still reads has been let go.
  pub add_parts-new_form :
      (ps : List Part)
      → let (final, errors) = add_parts lib (new_form lib) ps in
        (laws.arrays final.handle ≡ map create_options final.parts)
        × (final.parts ≡ accepted ps errors)
  unfolding new_form
  add_parts-new_form ps = add_parts-Grows (new_form lib) ps (laws.arrays-empty)
