-- ===== src/Tests/MiddlewareRuns.antt =====
-- Runs of app/middleware/security.py and of the in-memory bus of app/core/queue_service.py.
use scales_infrastructure.Prelude.{
  ℕ, ◌≡◌, ◌≤◌, refl, false, true, none, List, [], ◌∷◌, ◌++◌, count, arith,
}
use scales_infrastructure.Middleware.{
  Settings, PathTests, Request, Key, ip, admitted, dispatch, key_of, is_exempt, request_limit,
  purge, bucket_at, same_key, set_bucket,
}
use scales_infrastructure.Middleware.Windows.{in_window, admitted_times, admitted_times-bounded}
use scales_infrastructure.Middleware.Release.{run, dispatch-admitted}
use scales_infrastructure.Bus.{Step, publishes, gets, Subscriber, received, published}
use scales_infrastructure.Bus.Delivery.{received-published}

-- Two requests a minute without a token.
abbrev tight : Settings
tight = record {
  rate_limit_requests = 200;
  rate_limit_read_requests = 600;
  rate_limit_unauthed_requests = 2;
  rate_limit_window = 60;
}

abbrev songs_path : PathTests
songs_path = record {
  starts_with_kj_sync = false;
  starts_with_v1_kj_sync = false;
  is_docs = false;
  ends_with_health = false;
  is_onboarding_me = false;
  is_auth_me = false;
  starts_with_v1_venues = false;
  has_singers_me = false;
}

abbrev visit : Request
visit = record {
  authorization = none;
  x_api_key = none;
  client_ip = 9;
  path = songs_path;
  is_read = true;
}

abbrev visitor : Key
visitor = record { identity = ip 9; reads = false }

abbrev visits : List (ℕ × Request)
visits = (100, visit) ∷ (110, visit) ∷ (120, visit) ∷ []

-- The third is refused.
third_refused : admitted_times tight (λ n. n) visitor visits [] ≡ 100 ∷ 110 ∷ []
unfolding admitted_times dispatch is_exempt request_limit purge bucket_at same_key key_of set_bucket
third_refused = refl

admitted_times-bounded_example :
    count (in_window 60 100) (admitted_times tight (λ n. n) visitor visits []) ≤ 2
admitted_times-bounded_example =
    admitted_times-bounded tight (λ n. n) visitor visits
      (omega arith, (omega arith, (omega arith, tt))) 100

dispatch-admitted_example :
    (dispatch tight (λ n. n) 181 visit (run tight (λ n. n) visits [])).0 ≡ admitted
unfolding dispatch
dispatch-admitted_example =
    dispatch-admitted tight (λ n. n) visits (omega arith, (omega arith, (omega arith, tt))) 181
      visit (omega arith) (omega arith)

abbrev desk : List Subscriber
desk = record { id = 4; waiting = 1 ∷ [] } ∷ record { id = 5; waiting = [] } ∷ []

abbrev evening_steps : List Step
evening_steps = publishes 2 ∷ gets 4 ∷ publishes 3 ∷ gets 4 ∷ []

received-published_example :
    received 4 evening_steps desk ++ (3 ∷ []) ≡ (1 ∷ []) ++ published evening_steps
unfolding received scales_infrastructure.Bus.run
received-published_example =
    received-published 4 evening_steps desk (1 ∷ []) (3 ∷ []) refl (omega arith) refl refl
