-- ===== src/SharePoint/Request.antt =====
-- Requests to the Graph API, with their retries (`_make_request`), and the upload of a small file.
pub mod Laws
mod Tests
use community_integrations.Base.{
  ℕ, zero, suc, ◌+◌, ◌≡◌, String, List, [], ◌∷◌, Option, none, some, if◌then◌else◌, Result, ok, err,
  ◌==◌, nat_eq, string_eq,
}
use Prim.Native.Nat.{◌^◌}
use community_integrations.Base.Call.{Call, pure, raise, ◌>>=◌}
use community_integrations.Base.Dict.{Dict, put}
use community_integrations.Base.Lists.{leb}
use community_integrations.SharePoint.{Error, http_error, max_retries_exceeded}
use community_integrations.SharePoint.Token.{Resource, Tokens, on_world, get_headers}

pub record Request (Body : Type 0) : Type 0 where
  pub method : String
  pub url : String
  pub headers : Dict String String
  pub body : Body

-- A response, with its `Retry-After` header, if it has one, and its JSON.
pub record Response (Item : Type 0) : Type 0 where
  pub status_code : ℕ
  pub retry_after : Option String
  pub json : Item

-- `requests.request`, which raises only where there is no response, `time.sleep` and `int`.
pub record Web (W Body Item : Type 0) : Type 0 where
  pub tokens : Tokens W
  pub send : Request Body → Call Error W (Response Item)
  pub sleep : ℕ → W → W
  pub int : String → Result Error ℕ

-- `headers.update(others)`
unfoldable pub update : Dict String String → Dict String String → Dict String String
update headers [] = headers
update headers ((name, value) ∷ others) = update (put headers name value) others

-- What is done with a response: wait and try again, raise, or return it.
pub data Verdict (Item : Type 0) : Type 0 where
  again : ℕ → Verdict Item
  raised : Error → Verdict Item
  done : Response Item → Verdict Item

module _ {W Body Item : Type 0} (web : Web W Body Item) where
  -- `int(response.headers.get("Retry-After", 60))`
  unfoldable pub retry_delay : Option String → Result Error ℕ
  retry_delay none = ok 60
  retry_delay (some text) = web.int text

  abbrev pub wait : Result Error ℕ → Verdict Item
  wait (ok seconds) = again seconds
  wait (err e) = raised e

  -- The body of the loop after the request, in an attempt by its number from 0.
  unfoldable pub verdict : ℕ → Response Item → Verdict Item
  verdict attempt r =
      if r.status_code == 429
      then wait (retry_delay r.retry_after)
      else if leb 400 r.status_code
      then if attempt == 2
        then raised (http_error r.status_code)
        else if leb 500 r.status_code
        then again (2 ^ attempt)
        else raised (http_error r.status_code)
      else done r

  abbrev pub act :
      Verdict Item → (W → Result Error (Response Item) × W) → Call Error W (Response Item)
  act (again seconds) next w = next (web.sleep seconds w)
  act (raised e) next w = raise e w
  act (done r) next w = pure r w

  -- The loop, with so many attempts left.
  unfoldable pub attempts : ℕ → ℕ → Request Body → Call Error W (Response Item)
  attempts zero attempt q = raise max_retries_exceeded
  attempts (suc left) attempt q =
      web.send q >>= λ r. act (verdict attempt r) (attempts left (attempt + 1) q)

  -- `_make_request`
  unfoldable pub make_request :
      String → String → Dict String String → Body → Call Error (Resource W) (Response Item)
  make_request method url headers body = do
    own ← get_headers web.tokens
    on_world (
        attempts 3 0
          (record { method = method; url = url; headers = update headers own; body = body }))

  -- `_simple_upload`, to the URL of the file's content.
  unfoldable pub simple_upload : String → Body → Call Error (Resource W) Item
  simple_upload url content = do
    headers ← get_headers web.tokens
    response ←
        make_request "PUT" url (put headers "Content-Type" "application/octet-stream") content
    pure response.json
