-- ===== src/SharePoint/Token.antt =====
-- The access token and its cache (`access_token`, `_get_headers`). Times are whole seconds: the code
-- compares the time with a whole number, and takes its whole part.
pub mod Laws
mod Tests
use community_integrations.Base.{
  ℕ, ◌+◌, ◌-◌, String, List, [], ◌∷◌, Option, none, some, if◌then◌else◌, Result, ok, err, string_eq,
}
use community_integrations.Base.Call.{Call, pure, ◌>>=◌}
use community_integrations.Base.Dict.{Dict}
use community_integrations.Base.Lists.{ltb}
use community_integrations.Base.Text.{◌<>◌}
use community_integrations.SharePoint.{Error}

-- A resource: its cache, and the rest of the world.
pub record Resource (W : Type 0) : Type 0 where
  pub token_cache : Option (String × ℕ)
  pub world : W

-- `time.time()`, and `_fetch_new_token` with `expires_in` where the answer has it.
pub record Tokens (W : Type 0) : Type 0 where
  pub time : W → ℕ
  pub fetch : Call Error W (String × Option ℕ)

module _ {W A : Type 0} where
  abbrev pub with_world : Resource W → Result Error A × W → Result Error A × Resource W
  with_world s (r, w) = (r, record s { world = w })

  -- A call that leaves the cache.
  abbrev pub on_world : Call Error W A → Call Error (Resource W) A
  on_world f s = with_world s (f s.world)

-- `response.json().get("expires_in", 3600)`
abbrev pub lifetime : Option ℕ → ℕ
lifetime none = 3600
lifetime (some seconds) = seconds

abbrev pub headers_of : String → Dict String String
headers_of token = ("Authorization", "Bearer " <> token) ∷ ("Content-Type", "application/json") ∷ []

module _ {W : Type 0} (web : Tokens W) where
  -- Five minutes before the end. A difference below 0 is 0, which no time is less than, either.
  unfoldable pub keep_token : String × Option ℕ → Call Error (Resource W) String
  keep_token (token, expires_in) s = (
    ok token,
    record s { token_cache = some (token, web.time s.world + lifetime expires_in - 300) },
  )

  unfoldable pub fetch_and_keep : Call Error (Resource W) String
  fetch_and_keep = on_world web.fetch >>= keep_token

  abbrev pub cached_or_fetched : Option (String × ℕ) → Call Error (Resource W) String
  cached_or_fetched none s = fetch_and_keep s
  cached_or_fetched (some (token, expiry_time)) s =
      if ltb (web.time s.world) expiry_time then (ok token, s) else fetch_and_keep s

  -- `access_token`
  unfoldable pub access_token : Call Error (Resource W) String
  access_token s = cached_or_fetched s.token_cache s

  -- `_get_headers`
  unfoldable pub get_headers : Call Error (Resource W) (Dict String String)
  get_headers = access_token >>= λ token. pure (headers_of token)
