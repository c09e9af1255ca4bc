-- ===== src/Database/Queries/Encoding.antt =====
-- What the pointers of encodeParams point to.
use oink_judge.Prelude.{
  ℕ, zero, suc, ◌+◌, ◌≤◌, String, ◌≡◌, refl, sym, ap, ◌∙◌, Option, none, some, List, [], ◌∷◌, ◌++◌,
  map, length, arith, length-append,
}
use mathlib.Core.Option
use oink_judge.Prelude.Texts.{c_string}
use mathlib.Core.List.{append-nil, append_assoc, map-append}
use oink_judge.Database.Queries.{
  QueryParam, Printing, param_to_text, encode_text, encode_rest, encode_params, text_at, read_value,
}

abbrev reads : {D : Type 0} → Printing D → List String × List (Option ℕ) → List (Option String)
reads printing (storage, values) = map (read_value storage) values

-- Every pointer points to a text that is there.
abbrev Within : List String → List (Option ℕ) → Type 0
Within storage [] = Unit
Within storage (none ∷ values) = Within storage values
Within storage (some i ∷ values) = (suc i ≤ length storage) × Within storage values

text_at-append :
    (storage : List String) (text : String) (i : ℕ)
    → suc i ≤ length storage
    → text_at (storage ++ text ∷ []) i ≡ text_at storage i
unfolding text_at
text_at-append [] text i h = absurd (omega arith)
text_at-append (t ∷ storage) text zero h = refl
text_at-append (t ∷ storage) text (suc i) h = text_at-append storage text i (omega arith)

text_at-last :
    (storage : List String) (text : String)
    → text_at (storage ++ text ∷ []) (length storage) ≡ some (c_string text)
unfolding text_at
text_at-last [] text = refl
text_at-last (t ∷ storage) text = text_at-last storage text

reads-append :
    (storage : List String) (text : String) (values : List (Option ℕ))
    → Within storage values
    → map (read_value (storage ++ text ∷ [])) values ≡ map (read_value storage) values
reads-append storage text [] h = refl
reads-append storage text (none ∷ values) h =
    ap (λ r. none ∷ r) (reads-append storage text values h)
reads-append storage text (some i ∷ values) h =
    rw (text_at-append storage text i h.0)
      (ap (λ r. text_at storage i ∷ r) (reads-append storage text values h.1))

Within-append :
    (storage : List String) (text : String) (values : List (Option ℕ))
    → Within storage values
    → Within (storage ++ text ∷ []) (values ++ some (length storage) ∷ [])
Within-append storage text [] h = (omega (arith, length-append storage (text ∷ [])), tt)
Within-append storage text (none ∷ values) h = Within-append storage text values h
Within-append storage text (some i ∷ values) h =
    (omega (arith, h.0, length-append storage (text ∷ [])), Within-append storage text values h.1)

Within-none :
    (storage : List String) (values : List (Option ℕ))
    → Within storage values
    → Within storage (values ++ none ∷ [])
Within-none storage [] h = tt
Within-none storage (none ∷ values) h = Within-none storage values h
Within-none storage (some i ∷ values) h = (h.0, Within-none storage values h.1)

-- The text of a parameter as C reads it
abbrev pub sent_text : {D : Type 0} → Printing D → QueryParam D → Option String
sent_text printing param = Option.map c_string (param_to_text printing param)

module _ {D : Type 0} (printing : Printing D) where
  -- What the loop has encoded so far, and that `storage` has room for it.
  encode_text-reads :
      (o : Option String) (storage : List String) (values : List (Option ℕ))
      → Within storage values
      → let (s, v) = encode_text printing o (storage, values) in
        Within s v
        × (map (read_value s) v ≡ map (read_value storage) values ++ Option.map c_string o ∷ [])
        × (length s ≤ suc (length storage))
  encode_text-reads (some text) storage values h = (
    Within-append storage text values h,
    map-append (read_value (storage ++ text ∷ [])) values (some (length storage) ∷ [])
        ∙ rw (text_at-last storage text)
            (ap (λ r. r ++ some (c_string text) ∷ []) (reads-append storage text values h)),
    omega (arith, length-append storage (text ∷ [])),
  )
  encode_text-reads none storage values h = (
    Within-none storage values h,
    map-append (read_value storage) values (none ∷ []),
    omega arith,
  )

  encode_rest-reads :
      (params : List (QueryParam D)) (storage : List String) (values : List (Option ℕ))
      → Within storage values
      → let (s, v) = encode_rest printing params (storage, values) in
        (map (read_value s) v ≡ map (read_value storage) values ++ map (sent_text printing) params)
        × (length s ≤ length storage + length params)
  unfolding encode_rest
  encode_rest-reads [] storage values h =
      (sym (append-nil (map (read_value storage) values)), omega arith)
  encode_rest-reads (param ∷ params) storage values h =
      let text = param_to_text printing param in
      let (s, v) = encode_text printing text (storage, values) in
      let step = encode_text-reads text storage values h in
      let rest = encode_rest-reads params s v step.0 in
      (
        rest.0
            ∙ ap (λ r. r ++ map (sent_text printing) params) step.1
            ∙ append_assoc (map (read_value storage) values) (Option.map c_string text ∷ [])
                (map (sent_text printing) params),
        omega (arith, rest.1, step.2),
      )

  -- For all parameters, what libpq reads through the pointers of encodeParams are the texts of the
  -- parameters, each up to its first NUL, in order and with a null pointer for a null; and
  -- `storage` never holds more texts than were reserved, so that no text moves behind its pointer.
  pub encode_params-reads :
      (params : List (QueryParam D))
      → let (storage, values) = encode_params printing params in
        (map (read_value storage) values ≡ map (sent_text printing) params)
        × (length storage ≤ length params)
  unfolding encode_params
  encode_params-reads params =
      let h = encode_rest-reads params [] [] tt in (h.0, omega (arith, h.1))
