-- ===== src/SharePoint/Token/Laws.antt =====
-- A token is not used after its end.
use community_integrations.Base.{
  ℕ, ◌+◌, ◌≤◌, ◌<◌, ◌≡◌, refl, arith, String, Option, none, some, Result, ok, err, Bool-cases, inl,
  inr, ap,
}
use community_integrations.Base.Call.{follow}
use community_integrations.Base.Lists.{ltb}
use community_integrations.SharePoint.{Error}
use community_integrations.SharePoint.Token.{
  Resource, Tokens, with_world, lifetime, keep_token, fetch_and_keep, cached_or_fetched,
  access_token,
}

-- What OAuth promises, where the answer does not take as long as five minutes: a token is valid for
-- its lifetime, from when it was asked for, and that is more than five minutes.
pub record IsTokens {W : Type 0} (web : Tokens W) (valid_until : String → ℕ) : Type 0 where
  pub granted :
      (w : W) {token : String} {expires_in : Option ℕ}
      → (web.fetch w).0 ≡ ok (token, expires_in)
      → (300 < lifetime expires_in) × (web.time w + lifetime expires_in ≤ valid_until token)
  pub prompt : (w : W) → web.time (web.fetch w).1 ≤ web.time w + 299

module _ {W : Type 0} {web : Tokens W} {valid_until : String → ℕ}
    (law : IsTokens web valid_until) where
  abbrev pub IsKept : Option (String × ℕ) → Type 0
  IsKept none = Unit
  IsKept (some (token, expiry_time)) = expiry_time ≤ valid_until token

  -- A token that is returned, and the cache that is left.
  abbrev Fresh : Result Error String × Resource W → Type 0
  Fresh (ok token, s) = (web.time s.world < valid_until token) × IsKept s.token_cache
  Fresh (err e, s) = IsKept s.token_cache

  fetch_and_keep-Fresh : (s : Resource W) → IsKept s.token_cache → Fresh (fetch_and_keep web s)
  unfolding fetch_and_keep keep_token
  fetch_and_keep-Fresh s kept = go (web.fetch s.world) refl
    where
      go :
          (r : Result Error (String × Option ℕ) × W)
          → web.fetch s.world ≡ r
          → Fresh (follow (keep_token web) (with_world s r))
      go (err e, w) h = kept
      go (ok (token, expires_in), w) h =
          let (long, given) = law.granted s.world (ap (λ r. r.0) h) in
          let soon : web.time w ≤ web.time s.world + 299 = ground (arith, law.prompt s.world) in
          (omega arith, omega arith)

  access_token-Fresh : (s : Resource W) → IsKept s.token_cache → Fresh (access_token web s)
  unfolding access_token
  access_token-Fresh s kept = go s.token_cache kept
    where
      go : (c : Option (String × ℕ)) → IsKept c → Fresh (cached_or_fetched web c s)
      go none h = fetch_and_keep-Fresh s kept
      go (some (token, expiry_time)) h = elim (Bool-cases (ltb (web.time s.world) expiry_time)) [
        | inl early ↦ rw early (ground arith, kept)
        | inr late ↦ rw late (fetch_and_keep-Fresh s kept)
      ]

  Fresh-returned :
      (r : Result Error String × Resource W) (token : String)
      → Fresh r
      → r.0 ≡ ok token
      → (web.time r.1.world < valid_until token) × IsKept r.1.token_cache
  Fresh-returned (err e, s) token fresh h = cc
  Fresh-returned (ok t, s) token (early, kept) h = (ground arith, kept)

  -- Where a cached token is kept for no longer than it is valid, an access token is valid at the time
  -- when it is returned, whether it comes from the cache or not, and again the cache keeps none for
  -- longer than it is valid.
  pub access_token_valid :
      (s : Resource W)
      → IsKept s.token_cache
      → (token : String) → (access_token web s).0 ≡ ok token
      → (web.time (access_token web s).1.world < valid_until token)
        × IsKept (access_token web s).1.token_cache
  access_token_valid s kept token =
      Fresh-returned (access_token web s) token (access_token-Fresh s kept)
