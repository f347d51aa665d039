-- ===== src/Soldgraph/Examples.antt =====
-- Tests and concrete instances for packages/market-price/src/soldgraph-workflow.ts.
use hanamaru_shientool_prod.Prelude.{
  ◌≡◌, refl, ◌≢◌, ◌⊎◌, any, keep, true, false, none, some, List, [], ◌∷◌, arith, String, Result, ok,
  All,
}
use hanamaru_shientool_prod.Json.{Json, null}
use hanamaru_shientool_prod.Contracts.{
  PageRequest, ParsedPage, Checkpoint, Envelope, us, used, new, zero_credits, one_credit,
  conditions, CreditState, PageState, result_unknown,
}
use hanamaru_shientool_prod.Contracts.Equality.{request_eq, condition_eq}
use hanamaru_shientool_prod.Soldgraph.Workflow.Frees.{frees}
use hanamaru_shientool_prod.Soldgraph.Request.{
  Host, ContractError, validate_page_request, operation_key, normalize_keyword,
}
use hanamaru_shientool_prod.Prelude.Text.{tidy}
use hanamaru_shientool_prod.Prelude.Maps.{get, put, IsUnique}
use hanamaru_shientool_prod.Soldgraph.Request.Idempotent.{Stable, validate_page_request_twice}
use hanamaru_shientool_prod.Soldgraph.Workflow.{
  Surroundings, World, enabled, emergency_stop, mode, flag, answered, other_error, load, save,
  persist, call_provider, advance, settled_state,
}
use hanamaru_shientool_prod.Soldgraph.Workflow.Invariant.{
  WellFormed, advance-WellFormed, advance-credits_final,
}
use hanamaru_shientool_prod.Soldgraph.Workflow.Follows.{Follows, advance-Follows}
use hanamaru_shientool_prod.Soldgraph.Workflow.Traces.{OneCall, advance-OneCall}
use hanamaru_shientool_prod.Soldgraph.Workflow.Stopping.{advance-stopped}
use hanamaru_shientool_prod.Soldgraph.Workflow.Progress.{outcome, advance-publishes}
use hanamaru_shientool_prod.Soldgraph.Ledger.{
  new_checkpoint, held, budget_held, latest, note, own, owned, total,
}
use hanamaru_shientool_prod.Soldgraph.Ledger.Lifecycle.{
  Life, Life-held, Life-IsIdentified, IsIdentified, Life-WellFormed,
}
use hanamaru_shientool_prod.Soldgraph.Ledger.Budget.{Covers, IsFrom, budget_held-newest}
use hanamaru_shientool_prod.Soldgraph.Ledger.Owners.{budget_held-owned}

-- A host whose texts are normalised already, with one digest for all.
abbrev host : Host
host = record {
  nfkc = λ s. s;
  plan_digest = λ keyword ms cs f. "0a";
  operation_digest = λ sid r n. "1b";
}

host-Stable : Stable host
host-Stable = record { clean = λ s h. h; normal = λ s. refl }

abbrev request : PageRequest
request = record {
  keyword = "leica m6";
  market = us;
  page = 1;
  conditions = new ∷ (used ∷ []);
  buying_format = none;
}

abbrev page : ParsedPage
page = record {
  market = us;
  page = 1;
  next_page = none;
  collected_at = "2026-11-01T00:00:00Z";
  observations = [];
}

abbrev parse : Json → PageRequest → Result ContractError ParsedPage
parse raw r = ok page

abbrev start : Checkpoint
start = record {
  operation_key = "sg-1b";
  search_id = "s1";
  request = request;
  attempt = 1;
  request_id = none;
  credit_state = CreditState.reserved;
  credits = none;
  state = PageState.reserved;
  failure_class = none;
  retry_not_before = none;
  result = none;
  version = 0;
}

abbrev world : Checkpoint → World
world c = record { row = c; calls = 0; log = [] }

abbrev calm : Surroundings
calm = record {
  leased = λ n. true;
  permission = mode enabled;
  now_before = 5;
  now_after = 6;
  reply = answered (Envelope.complete "r1" one_credit false null);
}

abbrev stopped : Surroundings
stopped = record calm { permission = flag false }

start-new : new_checkpoint host "s1" request ≡ ok start
unfolding new_checkpoint operation_key validate_page_request normalize_keyword tidy
start-new = refl

validate_page_request_twice_example :
    (validate_page_request host request ≡ ok request)
    × (request.conditions ≡ keep (λ c. any (condition_eq c) request.conditions) conditions)
    × (request.market ≡ request.market)
    × (request.page ≡ request.page)
    × (request.buying_format ≡ request.buying_format)
unfolding validate_page_request normalize_keyword tidy
validate_page_request_twice_example =
    validate_page_request_twice host host-Stable request request refl

advance-publishes_example :
    advance host parse calm "sg-1b" (world start)
    ≡ outcome start "r1" "sg-1b" one_credit CreditState.charged page
        (record (world start) { calls = 1 })
unfolding operation_key validate_page_request normalize_keyword tidy
advance-publishes_example =
    advance-publishes host parse calm (λ n. refl) start "r1" "sg-1b" one_credit false null page
      (omega arith) refl refl (world start) refl refl refl refl refl refl refl refl

start-Life : Life host parse start
start-Life = Life.born "s1" request start-new

advance-WellFormed_example : WellFormed (advance host parse calm "sg-1b" (world start)).1.row
advance-WellFormed_example =
    advance-WellFormed host parse calm "sg-1b" (world start) (Life-WellFormed host parse start-Life)

-- A page that was paid for and could not be read.
abbrev unread : Checkpoint
unread = record start {
  request_id = some "r1";
  credits = some one_credit;
  credit_state = CreditState.charged;
  state = PageState.parse_failed;
  version = 3;
}

unread-WellFormed : WellFormed unread
unread-WellFormed = record { agree = refl; state_holds = (tt, tt); published = λ page e. cc }

advance-credits_final_example :
    let after = (advance host parse calm "sg-1b" (world unread)).1.row in
    (after.credits ≡ some one_credit) × (after.credit_state ≡ settled_state one_credit)
advance-credits_final_example =
    advance-credits_final host parse calm "sg-1b" (world unread) one_credit unread-WellFormed refl

-- A page that the provider gave up.
abbrev given_up : Checkpoint
given_up = record start {
  request_id = some "r1";
  credits = some zero_credits;
  credit_state = CreditState.released;
  state = PageState.failed;
  version = 2;
}

advance-Follows_example : Follows start (advance host parse calm "sg-1b" (world start))
advance-Follows_example = advance-Follows host parse calm "sg-1b" (world start)

advance-OneCall_example : OneCall [] (advance host parse calm "sg-1b" (world start))
advance-OneCall_example = advance-OneCall host parse calm "sg-1b" (world start)

advance-stopped_example :
    ((advance host parse stopped "sg-1b" (world start)).1.log ≡ [])
    × ((advance host parse stopped "sg-1b" (world start)).1.row ≡ start)
advance-stopped_example =
    advance-stopped host parse stopped emergency_stop refl "sg-1b" (world start) refl

abbrev second : Checkpoint
second = record start { attempt = 2 }

abbrev withdrawn : Checkpoint
withdrawn = record start {
  state = PageState.cancelled;
  credit_state = CreditState.released;
  credits = some zero_credits;
  version = 1;
}

Life-held_example :
    (((start.credits ≡ some zero_credits) × (held start ≡ 0))
      ⊎ ((start.credits ≢ some zero_credits) × (held start ≡ 1)))
    × ((frees other_error ≡ true)
        ⊎ (held
              (advance host parse (record calm { reply = other_error }) "sg-1b" (world start)).1.row
            ≡ held start))
Life-held_example =
    Life-held host parse (record calm { reply = other_error }) "sg-1b" (world start) start-Life

Life-IsIdentified_example : IsIdentified host start
Life-IsIdentified_example = Life-IsIdentified host parse host-Stable start-Life

-- A ledger with two versions of one operation, and another operation.
abbrev ledger : List Checkpoint
ledger = start ∷ (unread ∷ (record start { operation_key = "sg-2c" } ∷ []))

abbrev json : Checkpoint → String
json c = c.operation_key

ledger_total : budget_held json ledger ≡ ok 2
unfolding budget_held latest note get put owned own held
ledger_total = refl

budget_held-newest_example :
    (m : List (String × Checkpoint)) × (latest json [] ledger ≡ ok m)
    × (2 ≡ total m)
    × IsUnique m
    × All (Covers m) ledger
    × IsFrom ledger m
budget_held-newest_example = budget_held-newest json ledger 2 ledger_total

budget_held-owned_example :
    (m : List (String × Checkpoint)) × (latest json [] ledger ≡ ok m)
    × ((j k id : String) (c d : Checkpoint)
        → get j m ≡ some c
        → get k m ≡ some d
        → c.request_id ≡ some id
        → d.request_id ≡ some id
        → c.operation_key ≡ d.operation_key)
budget_held-owned_example = budget_held-owned json ledger 2 ledger_total

-- A lost reply leaves the page unknown and holding its credit.
lost_reply :
    (advance host parse (record calm { reply = other_error }) "sg-1b" (world start)).1.row
    ≡ record start {
      state = PageState.unknown;
      credit_state = CreditState.unknown;
      failure_class = some result_unknown;
      version = 2;
    }
unfolding advance load save persist call_provider operation_key validate_page_request
    normalize_keyword tidy request_eq
lost_reply = refl
