-- ===== src/OpenLineage/Naming/Tests.antt =====
-- Templates with a tag, and the namespaces that they give.
use community_integrations.Base.{◌≡◌, refl, true, List, [], ◌∷◌, ok, err, nat_eq, list_eq}
use community_integrations.Base.Lists.{keep}
use community_integrations.Base.Text.{Text, codes, starts_with}
use community_integrations.OpenLineage.Naming
use community_integrations.OpenLineage.Naming.{
  Segment, literal, namespace_token, tag_token, deferred, find_tokens, next, matched, segment_for,
  tag_segment, segments_of, after_literal, parse_namespace_template, normalize, resolve_namespace,
}
use community_integrations.OpenLineage.Naming.RoundTrip.{
  template_text, is_printable, template_text-parse_namespace_template,
  parse_namespace_template-template_text,
}
use community_integrations.OpenLineage.Naming.Resolve.{
  split, words, join_slash, normalize-eq-join_slash,
}

abbrev template : Text
template = codes "/{namespace}/{tag:team}//x{"

abbrev segments : List Segment
segments =
    literal (codes "/")
    ∷ namespace_token
    ∷ literal (codes "/")
    ∷ tag_token (codes "team")
    ∷ literal (codes "//x{")
    ∷ []

parsed : parse_namespace_template template ≡ ok segments
unfolding parse_namespace_template find_tokens next matched segments_of after_literal segment_for
    tag_segment starts_with nat_eq list_eq
parsed = refl

refused : parse_namespace_template (codes "{repository}") ≡ err (deferred (codes "repository"))
unfolding parse_namespace_template find_tokens next matched segments_of after_literal segment_for
    tag_segment starts_with nat_eq list_eq
refused = refl

template_text-parse_namespace_template_example : template_text segments ≡ template
template_text-parse_namespace_template_example =
    template_text-parse_namespace_template template segments parsed

abbrev printable : List Segment
printable = literal (codes "a}") ∷ namespace_token ∷ tag_token (codes "a{b") ∷ []

printable_is : is_printable printable ≡ true
unfolding is_printable nat_eq
printable_is = refl

parse_namespace_template-template_text_example :
    parse_namespace_template (template_text printable) ≡ ok printable
parse_namespace_template-template_text_example =
    parse_namespace_template-template_text printable printable_is

resolved :
    resolve_namespace segments (codes "prod") ((codes "user", codes "me") ∷ []) ≡ codes "prod/x{"
unfolding resolve_namespace Naming.parts Naming.part community_integrations.Base.Dict.get normalize
    Naming.collapse Naming.strip_left Naming.strip_right nat_eq list_eq
resolved = refl

normalize-eq-join_slash_example : normalize (codes "/a//b/") ≡ join_slash (words (codes "/a//b/"))
normalize-eq-join_slash_example = normalize-eq-join_slash (codes "/a//b/")

divided : words (codes "/a//b/") ≡ codes "a" ∷ codes "b" ∷ []
unfolding words split keep nat_eq
divided = refl
