-- ===== src/Tests/Stores.antt =====
-- The stores of persistence.py, worker_registry.py, push_delivery.py and subscription_store.py: the
-- theorems at concrete stores.
use mathlib.Core.List.{Memᴰ}
use hermes_agent_a2a.Prelude.{
  ℕ, ◌+◌, ◌-◌, ◌*◌, ◌^◌, ◌<◌, ◌≤◌, String, ◌≡◌, ◌≢◌, refl, ◌↔◌, Bool, true, none, some, [], ◌∷◌,
  arith, eq_iff, eqb, if◌then◌else◌,
}
use hermes_agent_a2a.Dict.{get, put, IsDistinct}
use hermes_agent_a2a.Json.{Fields, end, field, str}
use hermes_agent_a2a.Idempotency.{IdempotencyStore, record_result}
use hermes_agent_a2a.Workers.{Processes}
use hermes_agent_a2a.Push.{Outcome, response, raised, deliver_with_retry}
use hermes_agent_a2a.Push.Retry.{total, SucceedsAt, deliver_with_retry_exact}
use hermes_agent_a2a.Subscriptions.{
  Subscription, SubscriptionStore, init, add_subscription, get_subscriptions,
}
use hermes_agent_a2a.Subscriptions.Index.{IsIndexed, Step, Reach, Reach-IsIndexed}
use hermes_agent_a2a.Subscriptions.Lookup.{get_subscriptions_exact}

-- A hash that tells the empty payload from the others.
abbrev hash : Fields → String
hash end = "0"
hash (field k v fs) = "1"

abbrev one_field : Fields
one_field = field "text" (str "hello") end

abbrev stored : IdempotencyStore
stored = record_result hash 60 100 "key" "t1" one_field end []

stored-IsDistinct : IsDistinct stored
unfolding record_result put IsDistinct get
stored-IsDistinct = (refl, tt)

-- Process 1 has finished.
abbrev finished : ℕ → Bool
finished p = eqb p 1

abbrev workers : Processes
workers = ("t1", 1) ∷ ("t2", 2) ∷ []

workers-IsDistinct : IsDistinct workers
unfolding IsDistinct get
workers-IsDistinct = (refl, (refl, tt))

abbrev other_task : String
other_task = "t2"

abbrev other_config : String
other_config = "d"

t2_not_t1 : other_task ≢ "t1"
t2_not_t1 e = ground (arith, (eq_iff other_task "t1").1 e)

d_not_c : other_config ≢ "c"
d_not_c e = ground (arith, (eq_iff other_config "c").1 e)

abbrev dumps : Fields → String
dumps fs = "{}"

abbrev hmac : String → String → String
hmac key body = "sha256=00"

-- The second attempt succeeds.
abbrev post : ℕ → String → String → String → Outcome
post n url body signature = if eqb n 1 then response 204 else raised

deliver_with_retry_exact_example :
    let (answer, delays) = deliver_with_retry dumps hmac post 500 3 "https://example.org" end "k" in
    ((answer ≡ true)
      ↔ ((n : ℕ) × (n < 3) × SucceedsAt dumps hmac post 500 "https://example.org" end "k" n))
    × (0 < 3 → total delays + 500 ≤ 500 * 2 ^ (3 - 1))
deliver_with_retry_exact_example =
    deliver_with_retry_exact dumps hmac post 500 "https://example.org" end "k" 3

abbrev subscribed : SubscriptionStore
subscribed = (add_subscription 3600 10 "s1" "t1" "https://example.org" "k" init).0

unused : get "s1" init.store ≡ none
unfolding init get
unused = refl

Reach-subscribed : Reach subscribed
Reach-subscribed =
    Reach.next Reach.start (Step.subscribe 3600 10 "s1" "t1" "https://example.org" "k" unused)

Reach-IsIndexed_example : IsIndexed subscribed
Reach-IsIndexed_example = Reach-IsIndexed Reach-subscribed

abbrev first_subscription : Subscription
first_subscription = record {
  subscription_id = "s1";
  task_id = "t1";
  url = "https://example.org";
  hmac_key = "k";
  created_at = 10;
}

get_subscriptions_exact_example :
    Memᴰ first_subscription (get_subscriptions "t1" subscribed)
    ↔ ((get "s1" subscribed.store ≡ some first_subscription) × (first_subscription.task_id ≡ "t1"))
get_subscriptions_exact_example =
    get_subscriptions_exact "t1" subscribed first_subscription Reach-subscribed
