-- ===== src/OpenLineage/Naming/RoundTrip.antt =====
-- `parse_namespace_template` against the text of its segments.
use mathlib.Core.List.{append-nil, append_assoc}
use community_integrations.Base.{
  ℕ, ◌≡◌, refl, sym, ap, ◌∙◌, arith, not, Bool, true, false, List, [], ◌∷◌, ◌++◌, ◌&&◌, ◌==◌,
  nat_eq, list_eq, Result, ok, bind_returned, contains, Bool-cases, inl, inr, ◌⊎◌,
}
use community_integrations.Base.Lists.{drop, is_empty}
use community_integrations.Base.Text.{Text, codes, starts_with}
use community_integrations.OpenLineage.Naming.{
  Segment, literal, namespace_token, tag_token, Scan, outside, inside, next, matched, pending,
  find_tokens, tag_segment, segment_for, after_literal, segments_of, parse_namespace_template,
  TemplateError,
}

abbrev braced : Text → Text
braced token = b'{' ∷ token ++ b'}' ∷ []

abbrev pub segment_text : Segment → Text
segment_text (literal t) = t
segment_text namespace_token = codes "{namespace}"
segment_text (tag_token key) = codes "{tag:" ++ key ++ codes "}"

unfoldable pub template_text : List Segment → Text
template_text [] = []
template_text (s ∷ segments) = segment_text s ++ template_text segments

-- The text that the matches are in.
abbrev rebuilt : List (Text × Text) → Text → Text
rebuilt [] rest = rest
rebuilt ((before, token) ∷ ms) rest = before ++ braced token ++ rebuilt ms rest

close_text :
    (before token cs : Text) → before ++ braced token ++ cs ≡ (before ++ b'{' ∷ token) ++ b'}' ∷ cs
close_text before token cs = simp (append_assoc) refl

rebuilt-matched :
    (s : Scan) (c : ℕ) (ms : List (Text × Text)) (rest cs : Text)
    → rebuilt ms rest ≡ pending (next s c) ++ cs
    → rebuilt (matched s c ++ ms) rest ≡ pending s ++ c ∷ cs
unfolding next matched
rebuilt-matched (outside before) c ms rest cs h = elim (Bool-cases (c == b'{')) [
  | inl opens ↦ ground (arith, append_assoc before (b'{' ∷ []) cs)
  | inr plain ↦ ground (arith, append_assoc before (c ∷ []) cs)
]
rebuilt-matched (inside before token) c ms rest cs h = elim (Bool-cases (c == b'}')) [
  | inl closes ↦
      let same : rebuilt ms rest ≡ cs = ground arith in
      let ends : c ≡ b'}' = ground arith in rw (closes, same, ends) (close_text before token cs)
  | inr plain ↦ ground (
    arith,
    append_assoc token (c ∷ []) cs,
    append_assoc before (b'{' ∷ token) (c ∷ cs),
    append_assoc before (b'{' ∷ (token ++ c ∷ [])) cs,
  )
]

rebuilt-find_tokens :
    (s : Scan) (t : Text) → rebuilt (find_tokens s t).0 (find_tokens s t).1 ≡ pending s ++ t
unfolding find_tokens
rebuilt-find_tokens s [] = sym (append-nil (pending s))
rebuilt-find_tokens s (c ∷ cs) =
    rebuilt-matched s c (find_tokens (next s c) cs).0 (find_tokens (next s c) cs).1 cs
      (rebuilt-find_tokens (next s c) cs)

tag-drop :
    (token : Text) → starts_with (codes "tag:") token ≡ true → codes "tag:" ++ drop 4 token ≡ token
unfolding starts_with
tag-drop [] h = cc
tag-drop (a ∷ []) h = ground arith
tag-drop (a ∷ b ∷ []) h = ground arith
tag-drop (a ∷ b ∷ c ∷ []) h = ground arith
tag-drop (a ∷ b ∷ c ∷ d ∷ t) h = ground arith

tag_segment_text :
    (key : Text) (s : Segment)
    → tag_segment key ≡ ok s
    → segment_text s ≡ braced (codes "tag:" ++ key)
unfolding tag_segment
tag_segment_text [] s h = cc
tag_segment_text (c ∷ key) s h = ground arith

segment_for_text :
    (token : Text) (s : Segment) → segment_for token ≡ ok s → segment_text s ≡ braced token
unfolding segment_for
segment_for_text token s h = ground (arith, tag_segment_text (drop 4 token) s, tag-drop token)

after_literal_text :
    (t : Text) (segments : List Segment)
    → template_text (after_literal t segments) ≡ t ++ template_text segments
unfolding after_literal template_text
after_literal_text [] segments = refl
after_literal_text (c ∷ t) segments = refl

segments_text_step :
    (before token rebuilt_rest : Text) (s : Segment) (more segments : List Segment)
    → segment_text s ≡ braced token
    → template_text more ≡ rebuilt_rest
    → ◌≡◌ {A = Result TemplateError (List Segment)}
        (ok (after_literal before (s ∷ more)))
        (ok segments)
    → template_text segments ≡ before ++ braced token ++ rebuilt_rest
unfolding template_text
segments_text_step before token rebuilt_rest s more segments named others h =
    let e : segments ≡ after_literal before (s ∷ more) = ground arith in
    ap template_text e
    ∙ after_literal_text before (s ∷ more)
    ∙ rw (named, others) (simp (append_assoc) refl)

segments_of_text :
    (ms : List (Text × Text)) (rest : Text) (segments : List Segment)
    → segments_of ms rest ≡ ok segments
    → template_text segments ≡ rebuilt ms rest
unfolding segments_of template_text
segments_of_text [] rest segments h = ground (arith, after_literal_text rest [], append-nil rest)
segments_of_text ((before, token) ∷ ms) rest segments h =
    let (s, first, h₁) = bind_returned _ (segment_for token) h in
    let (more, others, h₂) = bind_returned _ (segments_of ms rest) h₁ in
    segments_text_step before token (rebuilt ms rest) s more segments
      (segment_for_text token s first) (segments_of_text ms rest more others) h₂

-- The text of the segments that a template is parsed into is the template.
pub template_text-parse_namespace_template :
    (template : Text) (segments : List Segment)
    → parse_namespace_template template ≡ ok segments
    → template_text segments ≡ template
unfolding parse_namespace_template
template_text-parse_namespace_template template segments h =
    segments_of_text (find_tokens (outside []) template).0 (find_tokens (outside []) template).1
      segments h
    ∙ rebuilt-find_tokens (outside []) template

-- Segments that their text can be read back into: a literal is not empty, has no opening brace and is
-- not before another, and a key is not empty and has no closing brace.
abbrev starts_literal : List Segment → Bool
starts_literal (literal t ∷ segments) = true
starts_literal _ = false

unfoldable pub is_printable : List Segment → Bool
is_printable [] = true
is_printable (literal t ∷ segments) =
    not (is_empty t)
    && not (contains t b'{')
    && not (starts_literal segments)
    && is_printable segments
is_printable (namespace_token ∷ segments) = is_printable segments
is_printable (tag_token key ∷ segments) =
    not (is_empty key) && not (contains key b'}') && is_printable segments

abbrev parsed : List (Text × Text) × Text → Result TemplateError (List Segment)
parsed (ms, rest) = segments_of ms rest

find_tokens_literal :
    (t before rest : Text)
    → contains t b'{' ≡ false
    → find_tokens (outside before) (t ++ rest) ≡ find_tokens (outside (before ++ t)) rest
unfolding find_tokens next matched
find_tokens_literal [] before rest h = rw append-nil refl
find_tokens_literal (c ∷ t) before rest h =
    let plain : (c == b'{') ≡ false = ground arith in
    let others = find_tokens_literal t (before ++ c ∷ []) rest (ground arith) in
    rw (plain, others, append_assoc) refl

find_tokens_inside :
    (token before so_far rest : Text)
    → contains token b'}' ≡ false
    → find_tokens (inside before so_far) (token ++ b'}' ∷ rest) ≡ (
      (before, so_far ++ token) ∷ (find_tokens (outside []) rest).0,
      (find_tokens (outside []) rest).1,
    )
unfolding find_tokens next matched nat_eq
find_tokens_inside [] before so_far rest h = rw append-nil refl
find_tokens_inside (c ∷ t) before so_far rest h =
    let plain : (c == b'}') ≡ false = ground arith in
    let others = find_tokens_inside t before (so_far ++ c ∷ []) rest (ground arith) in
    rw (plain, others, append_assoc) refl

find_tokens_opened :
    (before cs : Text)
    → find_tokens (outside before) (b'{' ∷ cs) ≡ find_tokens (inside before []) cs
unfolding find_tokens next matched nat_eq
find_tokens_opened before cs = refl

-- A token in its braces gives its segment.
token_step :
    (token before rest : Text) (s : Segment) (segments : List Segment)
    → contains token b'}' ≡ false
    → segment_for token ≡ ok s
    → parsed (find_tokens (outside []) rest) ≡ ok segments
    → parsed (find_tokens (outside before) (b'{' ∷ token ++ b'}' ∷ rest))
      ≡ ok (after_literal before (s ∷ segments))
unfolding segments_of
token_step token before rest s segments h first others =
    ap parsed
      (find_tokens_opened before (token ++ b'}' ∷ rest) ∙ find_tokens_inside token before [] rest h)
    ∙ rw (first, others) refl

segment_for_tag :
    (key : Text) → is_empty key ≡ false → segment_for (codes "tag:" ++ key) ≡ ok (tag_token key)
unfolding segment_for tag_segment starts_with list_eq nat_eq
segment_for_tag [] h = cc
segment_for_tag (c ∷ key) h = refl

segment_for_namespace : segment_for (codes "namespace") ≡ ok namespace_token
unfolding segment_for list_eq nat_eq
segment_for_namespace = refl

parsed-template_text :
    (segments : List Segment) (before : Text)
    → (before ≡ []) ⊎ (starts_literal segments ≡ false)
    → is_printable segments ≡ true
    → parsed (find_tokens (outside before) (template_text segments))
      ≡ ok (after_literal before segments)
unfolding template_text is_printable after_literal segments_of nat_eq find_tokens
parsed-template_text [] before apart h = refl
parsed-template_text (literal t ∷ segments) before (inr other) h = cc
parsed-template_text (literal [] ∷ segments) before (inl none_before) h = cc
parsed-template_text (literal (c ∷ t) ∷ segments) before (inl none_before) h =
    let unopened : contains (c ∷ t) b'{' ≡ false = ground arith in
    let apart : starts_literal segments ≡ false = ground arith in
    let others = parsed-template_text segments (c ∷ t) (inr apart) (ground arith) in
    rw none_before
      (ap parsed (find_tokens_literal (c ∷ t) [] (template_text segments) unopened) ∙ others)
parsed-template_text (namespace_token ∷ segments) before apart h =
    token_step (codes "namespace") before (template_text segments) namespace_token segments refl
      segment_for_namespace (parsed-template_text segments [] (inl refl) h)
parsed-template_text (tag_token key ∷ segments) before apart h =
    let unclosed : contains key b'}' ≡ false = ground arith in
    let given : is_empty key ≡ false = ground arith in
    let others = parsed-template_text segments [] (inl refl) (ground arith) in
    ap (λ t. parsed (find_tokens (outside before) t))
      (ap (λ t. codes "{tag:" ++ t) (append_assoc key (codes "}") (template_text segments)))
    ∙ token_step (codes "tag:" ++ key) before (template_text segments) (tag_token key) segments
        unclosed (segment_for_tag key given) others

-- The text of printable segments is parsed into them.
pub parse_namespace_template-template_text :
    (segments : List Segment)
    → is_printable segments ≡ true
    → parse_namespace_template (template_text segments) ≡ ok segments
unfolding parse_namespace_template after_literal
parse_namespace_template-template_text segments h = parsed-template_text segments [] (inl refl) h
