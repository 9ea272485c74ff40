-- ===== src/OpenLineage/Naming.antt =====
-- naming.py: templates of namespaces, and the namespace that one gives an event.
pub mod RoundTrip
pub mod Resolve
mod Tests
use community_integrations.Base.{
  ℕ, Bool, true, false, List, [], ◌∷◌, ◌++◌, Option, none, some, ◌&&◌, ◌||◌, ◌==◌, nat_eq, list_eq,
  if◌then◌else◌, Result, ok, err, ◌>>=◌,
}
use community_integrations.Base.Dict.{Dict, get}
use community_integrations.Base.Lists.{is_empty, drop}
use community_integrations.Base.Text.{Text, codes, starts_with}

-- `_Segment` and its subclasses
pub data Segment : Type 0 where
  literal : Text → Segment
  namespace_token : Segment
  tag_token : Text → Segment

-- `NamespaceTemplateError`
pub data TemplateError : Type 0 where
  deferred unknown : Text → TemplateError
  empty_tag_key : TemplateError

-- `_TOKEN_RE.finditer(template)`: in each match a brace is opened and the next closing one ends it. The
-- scan is outside of a brace, with the text since the last match, or inside, with that and the token.
pub data Scan : Type 0 where
  outside : Text → Scan
  inside : Text → Text → Scan

unfoldable pub next : Scan → ℕ → Scan
next (outside before) c = if c == b'{' then inside before [] else outside (before ++ c ∷ [])
next (inside before token) c = if c == b'}' then outside [] else inside before (token ++ c ∷ [])

-- A match that a character ends: the text before it, and its group.
unfoldable pub matched : Scan → ℕ → List (Text × Text)
matched (outside before) c = []
matched (inside before token) c = if c == b'}' then (before, token) ∷ [] else []

abbrev pub pending : Scan → Text
pending (outside before) = before
pending (inside before token) = before ++ b'{' ∷ token

-- The matches, and the text after the last.
unfoldable pub find_tokens : Scan → Text → List (Text × Text) × Text
find_tokens s [] = ([], pending s)
find_tokens s (c ∷ cs) = let (ms, rest) = find_tokens (next s c) cs in (matched s c ++ ms, rest)

-- The segment of a token.
unfoldable pub tag_segment : Text → Result TemplateError Segment
tag_segment [] = err empty_tag_key
tag_segment (c ∷ key) = ok (tag_token (c ∷ key))

unfoldable pub segment_for : Text → Result TemplateError Segment
segment_for token =
    if token == codes "code_location" || token == codes "repository"
    then err (deferred token)
    else if token == codes "namespace"
    then ok namespace_token
    else if starts_with (codes "tag:") token
    then tag_segment (drop 4 token)
    else err (unknown token)

-- A text that is empty gives no segment.
unfoldable pub after_literal : Text → List Segment → List Segment
after_literal [] segments = segments
after_literal (c ∷ text) segments = literal (c ∷ text) ∷ segments

unfoldable pub segments_of : List (Text × Text) → Text → Result TemplateError (List Segment)
segments_of [] rest = ok (after_literal rest [])
segments_of ((before, token) ∷ ms) rest = do
  segment ← segment_for token
  more ← segments_of ms rest
  ok (after_literal before (segment ∷ more))

-- `parse_namespace_template`
unfoldable pub parse_namespace_template : Text → Result TemplateError (List Segment)
parse_namespace_template template =
    let (ms, rest) = find_tokens (outside []) template in segments_of ms rest

-- `re.sub(r"/+", "/", value)`
abbrev pub squeeze : ℕ → Text → Text
squeeze c [] = c ∷ []
squeeze c (d ∷ ds) = if c == b'/' && d == b'/' then d ∷ ds else c ∷ d ∷ ds

unfoldable pub collapse : Text → Text
collapse [] = []
collapse (c ∷ cs) = squeeze c (collapse cs)

-- `.strip("/")`
unfoldable pub strip_left : Text → Text
strip_left [] = []
strip_left (c ∷ cs) = if c == b'/' then strip_left cs else c ∷ cs

unfoldable pub strip_right : Text → Text
strip_right [] = []
strip_right (c ∷ cs) =
    let rest = strip_right cs in if c == b'/' && is_empty rest then [] else c ∷ rest

-- `_normalize`
unfoldable pub normalize : Text → Text
normalize value = strip_left (strip_right (collapse value))

abbrev pub or_empty : Option Text → Text
or_empty none = []
or_empty (some t) = t

-- What a segment stands for.
unfoldable pub part : Text → Dict Text Text → Segment → Text
part namespace tags (literal t) = t
part namespace tags namespace_token = namespace
part namespace tags (tag_token key) = or_empty (get tags key)

unfoldable pub parts : Text → Dict Text Text → List Segment → Text
parts namespace tags [] = []
parts namespace tags (s ∷ segments) = part namespace tags s ++ parts namespace tags segments

-- `resolve_namespace`
unfoldable pub resolve_namespace : List Segment → Text → Dict Text Text → Text
resolve_namespace parsed namespace tags = normalize (parts namespace tags parsed)
