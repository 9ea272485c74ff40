-- ===== src/SharePoint/Request/Tests.antt =====
-- A server that fails twice.
use community_integrations.Base.{
  ℕ, zero, suc, ◌+◌, ◌≤◌, ◌<◌, ◌≡◌, refl, arith, [], none, ok, inr, nat_eq, string_eq,
}
use community_integrations.SharePoint.Request.{
  Request, Response, Web, attempts, verdict, retry_delay,
}
use community_integrations.SharePoint.Request.Laws.{Recovers, attempts_bounded, attempts_recovered}

-- The failures that are to come, and the requests that were sent.
abbrev World : Type 0
World = ℕ × ℕ

abbrev answer : ℕ → Response (Unit {0})
answer zero = record { status_code = 200; retry_after = none; json = tt }
answer (suc n) = record { status_code = 503; retry_after = none; json = tt }

abbrev fewer : ℕ → ℕ
fewer zero = zero
fewer (suc n) = n

abbrev web : Web World (Unit {0}) (Unit {0})
web = record {
  tokens = record { time = λ w. 0; fetch = λ w. (ok ("token", none), w) };
  send = λ q w. (ok (answer w.0), (fewer w.0, w.1 + 1));
  sleep = λ n w. w;
  int = λ text. ok 1;
}

abbrev request : Request (Unit {0})
request = record { method = "GET"; url = "/drives"; headers = []; body = tt }

failing : (n : ℕ) → 1 ≤ n → (500 ≤ (answer n).status_code) × (fewer n + 1 ≡ n)
failing zero h = absurd (omega arith)
failing (suc n) h = (omega arith, omega arith)

answering : (n : ℕ) → n ≡ 0 → (answer n).status_code < 400
answering zero h = omega arith
answering (suc n) h = absurd (omega arith)

web-Recovers : Recovers web (λ w. w.0)
web-Recovers = record {
  slept = λ n w. refl;
  failing = λ q w h. (answer w.0, refl, inr (failing w.0 h).0, (failing w.0 h).1);
  answering = λ q w h. (answer w.0, refl, answering w.0 h);
}

ran : attempts web 3 0 request (2, 0) ≡ (ok (answer 0), (0, 3))
unfolding attempts verdict retry_delay nat_eq
ran = refl

attempts_recovered_example :
    (s : Response (Unit {0})) × ((attempts web 3 0 request (2, 0)).0 ≡ ok s)
attempts_recovered_example =
    attempts_recovered web (λ w. w.0) web-Recovers request (2, 0) (omega arith)

attempts_bounded_example :
    ((attempts web 3 0 request (2, 0)).1.1 ≤ 3)
    × ((s : Response (Unit {0})) → (attempts web 3 0 request (2, 0)).0 ≡ ok s → s.status_code < 400)
attempts_bounded_example =
    attempts_bounded web (λ w. w.1) (λ q w. refl) (λ n w. refl) request (2, 0)
