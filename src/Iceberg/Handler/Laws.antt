-- ===== src/Iceberg/Handler/Laws.antt =====
-- The options of an upsert.
use community_integrations.Base.{
  ◌≡◌, ◌≢◌, ◌⊎◌, inl, inr, refl, sym, ap, false, arith, String, [], ◌∷◌, Option, none, some,
  string_eq, Result, ok, err,
}
use community_integrations.Base.Dict.{Dict, get, put, NodupKeys, get-put, contains-keys}
use community_integrations.Base.Lists.{is_empty}
use community_integrations.Iceberg.Error.{Error, value_error, no_options_given}
use community_integrations.Iceberg.Writer.{UpsertOptions, upsert_mode}
use community_integrations.Iceberg.Handler.{
  OptionsValue, dict_value, model_value, other_value, merge, parse_upsert_options,
  get_upsert_options,
}

pub result_cases :
    {A : Type 0} (r : Result Error A) → ((a : A) × (r ≡ ok a)) ⊎ ((e : Error) × (r ≡ err e))
result_cases (ok a) = inl (a, refl)
result_cases (err e) = inr (e, refl)

module _ {V : Type 0} where
  get-merge :
      (first second : Dict String V) (k : String)
      → NodupKeys second
      → get (merge first second) k ≡ elim (get second k) [ some v ↦ some v | none ↦ get first k ]
  unfolding merge get
  get-merge first [] k h = refl
  get-merge first ((j, v) ∷ second) k (new, h) =
      let below = get-merge (put first j v) second k h in
      let here = get-put first j k v in
      let absent = contains-keys second j in ground (arith, below, here, absent)

  put-filled : (d : Dict String V) (k : String) (v : V) → is_empty (put d k v) ≡ false
  unfolding put
  put-filled [] k v = refl
  put-filled ((j, w) ∷ d) k v = ground arith

  merge-filled :
      (first second : Dict String V)
      → is_empty first ≡ false
      → is_empty (merge first second) ≡ false
  unfolding merge
  merge-filled first [] h = h
  merge-filled first ((k, v) ∷ second) h =
      merge-filled (put first k v) second (put-filled first k v)

  merge-filled_right :
      (first second : Dict String V) → second ≢ [] → is_empty (merge first second) ≡ false
  unfolding merge
  merge-filled_right first [] h = absurd (h refl)
  merge-filled_right first ((k, v) ∷ second) h =
      merge-filled (put first k v) second (put-filled first k v)

  empty_cases :
      (first second : Dict String V)
      → ((first ≡ []) × (second ≡ []))
        ⊎ (((first ≢ []) ⊎ (second ≢ [])) × (is_empty (merge first second) ≡ false))
  empty_cases [] [] = inl (refl, refl)
  empty_cases [] (p ∷ second) = inr (inr (λ h. cc), merge-filled_right [] (p ∷ second) (λ h. cc))
  empty_cases (p ∷ first) second = inr (inl (λ h. cc), merge-filled (p ∷ first) second refl)

  -- The options that a metadata entry gives: none where there is no entry, a dict, or the dict of a model.
  abbrev pub IsGiven :
      (UpsertOptions → Dict String V) → Option (OptionsValue V) → Dict String V → Type 0
  IsGiven model_dump none given = given ≡ []
  IsGiven model_dump (some (dict_value options)) given = given ≡ options
  IsGiven model_dump (some (model_value options)) given = given ≡ model_dump options
  IsGiven model_dump (some other_value) given = ⊥

  parsed :
      (model_dump : UpsertOptions → Dict String V) (o : Option (OptionsValue V))
      (given : Dict String V)
      → IsGiven model_dump o given
      → parse_upsert_options model_dump o ≡ ok given
  unfolding parse_upsert_options
  parsed model_dump none given h = ap ok (sym h)
  parsed model_dump (some (dict_value options)) given h = ap ok (sym h)
  parsed model_dump (some (model_value options)) given h = ap ok (sym h)
  parsed model_dump (some other_value) given h = absurd h

  -- In the mode "upsert": if neither metadata gives an option, the error that says so is raised. Else the
  -- result is what pydantic makes of a dict, or what it raises, and that dict has for every key the value
  -- of the output's metadata if these have the key, and else the definition's.
  pub get_upsert_options_merged :
      (model_dump : UpsertOptions → Dict String V)
      (model_validate : Dict String V → Result Error UpsertOptions)
      (definition output : Option (OptionsValue V)) (of_definition of_output : Dict String V)
      → IsGiven model_dump definition of_definition
      → IsGiven model_dump output of_output
      → NodupKeys of_output
      → let result = get_upsert_options model_dump model_validate definition output upsert_mode in
        ((of_definition ≡ []) × (of_output ≡ []) × (result ≡ err (value_error no_options_given)))
        ⊎ (((of_definition ≢ []) ⊎ (of_output ≢ []))
            × (options : Dict String V) × ((k : String)
                → get options k
                  ≡ elim (get of_output k) [ some v ↦ some v | none ↦ get of_definition k ])
            × (((made : UpsertOptions) × (model_validate options ≡ ok made)
                  × (result ≡ ok (some made)))
                ⊎ ((e : Error) × (model_validate options ≡ err e) × (result ≡ err e))))
  unfolding get_upsert_options merge
  get_upsert_options_merged model_dump model_validate definition output of_definition of_output h₁
        h₂ nodup =
      let read_definition = parsed model_dump definition of_definition h₁ in
      let read_output = parsed model_dump output of_output h₂ in
      let options = merge of_definition of_output in
      elim (empty_cases of_definition of_output) [
        | inl (nothing, none_too) ↦
            inl (nothing, none_too, rw (read_output, read_definition, none_too, nothing) refl)
        | inr (either, some_there) ↦ inr (
          either,
          options,
          λ k. get-merge of_definition of_output k nodup,
          elim (result_cases (model_validate options)) [
            | inl (made, valid) ↦
                inl (made, valid, rw (read_output, read_definition, some_there, valid) refl)
            | inr (e, invalid) ↦
                inr (e, invalid, rw (read_output, read_definition, some_there, invalid) refl)
          ],
        )
      ]
