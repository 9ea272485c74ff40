-- ===== src/SharePoint/Request/Laws.antt =====
-- How often a request is sent, what it returns, and what it says of its content.
use community_integrations.Base.{
  ℕ, zero, suc, ◌+◌, ◌≤◌, ◌<◌, ◌≡◌, refl, ap, ◌∙◌, arith, String, none, some, Result, ok, err,
  Bool-cases, inl, inr, string_eq, nat_eq, ◌==◌, ◌⊎◌,
}
use Prim.Native.Nat.{◌^◌}
use community_integrations.Base.Call.{Call, follow, follow_ok}
use community_integrations.Base.Text.{◌<>◌}
use community_integrations.Base.Dict.{Dict, get, put, get-put}
use community_integrations.Base.Lists.{leb}
use community_integrations.SharePoint.{Error}
use community_integrations.SharePoint.Token.{headers_of}
use community_integrations.SharePoint.Request.{
  Request, Response, Web, Verdict, again, raised, done, update, verdict, wait, retry_delay, act,
  attempts,
}

module _ {W Body Item : Type 0} (web : Web W Body Item) where
  -- A verdict by cases: where it returns a response, that is the one, and its status is below 400.
  Settled : Response Item → Verdict Item → Type 0
  Settled r (again n) = Unit
  Settled r (raised e) = Unit
  Settled r (done s) = (s ≡ r) × (r.status_code < 400)

  verdict-Settled : (attempt : ℕ) (r : Response Item) → Settled r (verdict web attempt r)
  unfolding verdict Settled
  verdict-Settled attempt r = elim (Bool-cases (r.status_code == 429)) [
    | inl limited ↦ rw limited (go (retry_delay web r.retry_after))
    | inr free ↦ elim (Bool-cases (leb 400 r.status_code)) [
      | inr fine ↦ rw (free, fine) (refl, ground arith)
      | inl bad ↦ elim (Bool-cases (attempt == 2)) [
        | inl last ↦ rw (free, bad, last) tt
        | inr more ↦ elim (Bool-cases (leb 500 r.status_code)) [
          | inl server ↦ rw (free, bad, more, server) tt
          | inr client ↦ rw (free, bad, more, client) tt
        ]
      ]
    ]
  ]
    where
      go : (d : Result Error ℕ) → Settled r (wait web d)
      go (ok n) = tt
      go (err e) = tt

  module _ (sent : W → ℕ)
      (counted : (q : Request Body) (w : W) → sent (web.send q w).1 ≡ sent w + 1)
      (slept : (n : ℕ) (w : W) → sent (web.sleep n w) ≡ sent w) where
    -- At most so many are sent, and what is returned has a status below 400.
    abbrev Bounded : ℕ → Result Error (Response Item) × W → Type 0
    Bounded most (r, w) = (sent w ≤ most) × ((s : Response Item) → r ≡ ok s → s.status_code < 400)

    act-Bounded :
        (most : ℕ) (r : Response Item) (v : Verdict Item) (next : Call Error W (Response Item))
        (w : W)
        → Settled r v
        → sent w ≤ most
        → ((u : W) → sent u ≡ sent w → Bounded most (next u))
        → Bounded most (act web v next w)
    unfolding Settled
    act-Bounded most r (again n) next w settled h later = later (web.sleep n w) (slept n w)
    act-Bounded most r (raised e) next w settled h later = (h, λ s k. cc)
    act-Bounded most r (done s) next w (same, fine) h later = (h, λ t k. ground arith)

    attempts-Bounded :
        (left attempt most : ℕ) (q : Request Body) (w : W)
        → sent w + left ≤ most
        → Bounded most (attempts web left attempt q w)
    unfolding attempts
    attempts-Bounded zero attempt most q w h = (omega arith, λ s k. cc)
    attempts-Bounded (suc left) attempt most q w h =
        go (attempts web left (attempt + 1) q)
          (λ v later. attempts-Bounded left (attempt + 1) most q v later) (web.send q w)
          (counted q w)
      where
        go :
            (next : Call Error W (Response Item))
            → ((v : W) → sent v + left ≤ most → Bounded most (next v))
            → (r : Result Error (Response Item) × W) → sent r.1 ≡ sent w + 1
            → Bounded most (follow (λ r. act web (verdict web attempt r) next) r)
        go next later (err e, u) once = (omega arith, λ s k. cc)
        go next later (ok r, u) once =
            act-Bounded most r (verdict web attempt r) next u (verdict-Settled attempt r)
              (omega arith) (λ v same. later v (omega arith))

    -- A request is sent at most three times, whatever is answered, and a response that is returned has
    -- a status below 400.
    pub attempts_bounded :
        (q : Request Body) (w : W)
        → (sent (attempts web 3 0 q w).1 ≤ sent w + 3)
          × ((s : Response Item) → (attempts web 3 0 q w).0 ≡ ok s → s.status_code < 400)
    attempts_bounded q w = attempts-Bounded 3 0 (sent w + 3) q w (omega arith)

  module _ (pending : W → ℕ) where
    -- A server that fails so many times with a status that is tried again, and then answers.
    pub record Recovers : Type 0 where
      pub slept : (n : ℕ) (w : W) → pending (web.sleep n w) ≡ pending w
      pub failing :
          (q : Request Body) (w : W)
          → 1 ≤ pending w
          → (r : Response Item) × ((web.send q w).0 ≡ ok r)
            × (((r.status_code ≡ 429) × (r.retry_after ≡ none)) ⊎ (500 ≤ r.status_code))
            × (pending (web.send q w).1 + 1 ≡ pending w)
      pub answering :
          (q : Request Body) (w : W)
          → pending w ≡ 0
          → (r : Response Item) × ((web.send q w).0 ≡ ok r) × (r.status_code < 400)

    verdict-again :
        (attempt : ℕ) (r : Response Item)
        → attempt < 2
        → ((r.status_code ≡ 429) × (r.retry_after ≡ none)) ⊎ (500 ≤ r.status_code)
        → (n : ℕ) × (verdict web attempt r ≡ again n)
    unfolding verdict retry_delay
    verdict-again attempt r h (inl (limited, unset)) = (60, rw (limited, unset) (ground arith))
    verdict-again attempt r h (inr server) = (2 ^ attempt, ground arith)

    verdict-fine :
        (attempt : ℕ) (r : Response Item) → r.status_code < 400 → verdict web attempt r ≡ done r
    unfolding verdict
    verdict-fine attempt r h = ground arith

    attempts_recover :
        Recovers
        → (left attempt : ℕ) (q : Request Body) (w : W) → attempt + left ≡ 3
        → pending w < left
        → (s : Response Item) × ((attempts web left attempt q w).0 ≡ ok s)
    unfolding attempts
    attempts_recover law zero attempt q w h few = absurd (omega arith)
    attempts_recover law (suc left) attempt q w h few =
        let next : Response Item → Call Error W (Response Item) =
          λ r. act web (verdict web attempt r) (attempts web left (attempt + 1) q) in
        elim (Bool-cases (pending w == 0)) [
          | inl over ↦
              let (r, answered, fine) = law.answering q w (ground arith) in
              (
                r,
                ap (λ p. p.0) (follow_ok next (web.send q w) answered)
                    ∙ rw (verdict-fine attempt r fine) refl,
              )
          | inr more ↦
              let (r, answered, bad, fewer) = law.failing q w (ground arith) in
              let (n, wait) = verdict-again attempt r (ground arith) bad in
              let (s, ends) =
                attempts_recover law left (attempt + 1) q (web.sleep n (web.send q w).1)
                  (omega arith) (ground (arith, law.slept n (web.send q w).1)) in
              (s, ap (λ p. p.0) (follow_ok next (web.send q w) answered) ∙ rw wait ends)
        ]

    -- Where a server fails at most twice, each time by status 429 without a time to wait or by a
    -- status from 500 on, and then answers with a status below 400, a request returns.
    pub attempts_recovered :
        Recovers
        → (q : Request Body) (w : W) → pending w ≤ 2
        → (s : Response Item) × ((attempts web 3 0 q w).0 ≡ ok s)
    attempts_recovered law q w few = attempts_recover law 3 0 q w refl (omega arith)

-- Whatever headers a caller gives, those that are sent have the content type of JSON.
update_content_type :
    (headers : Dict String String) (token : String)
    → get (update headers (headers_of token)) "Content-Type" ≡ some "application/json"
unfolding update string_eq
update_content_type headers token =
    get-put (put headers "Authorization" ("Bearer " <> token)) "Content-Type" "Content-Type" _
