-- ===== src/SharePoint/Token/Tests.antt =====
-- A server that grants one token, at two times.
use community_integrations.Base.{
  ℕ, ◌+◌, ◌≡◌, ◌<◌, ◌≤◌, refl, arith, Bool, true, false, String, Option, none, some, ok,
}
use community_integrations.SharePoint.Token.{
  Resource, Tokens, lifetime, access_token, fetch_and_keep, keep_token,
}
use community_integrations.SharePoint.Token.Laws.{IsTokens, IsKept, access_token_valid}

-- Whether it is later.
abbrev time : Bool → ℕ
time false = 1000
time true = 4400

abbrev tokens : Tokens Bool
tokens = record { time = time; fetch = λ later. (ok ("token", none), later) }

abbrev valid_until : String → ℕ
valid_until token = 8000

granted : (later : Bool) → time later + 3600 ≤ 8000
granted false = omega arith
granted true = omega arith

grants :
    (later : Bool) (expires_in : Option ℕ)
    → expires_in ≡ none
    → (300 < lifetime expires_in) × (time later + lifetime expires_in ≤ 8000)
grants later none h = (omega arith, granted later)
grants later (some n) h = cc

tokens-IsTokens : IsTokens tokens valid_until
tokens-IsTokens = record {
  granted = λ later {token} {expires_in} h. grants later expires_in (ground arith);
  prompt = λ later. omega arith;
}

-- The cached token is over, in effect, five minutes before 4600.
abbrev late : Resource Bool
late = record { token_cache = some ("token", 4300); world = true }

fetched : (access_token tokens late).0 ≡ ok "token"
unfolding access_token fetch_and_keep keep_token
fetched = refl

access_token_valid_example :
    (time (access_token tokens late).1.world < 8000)
    × IsKept tokens-IsTokens (access_token tokens late).1.token_cache
access_token_valid_example = access_token_valid tokens-IsTokens late (omega arith) "token" fetched
