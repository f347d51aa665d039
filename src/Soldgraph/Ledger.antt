-- ===== src/Soldgraph/Ledger.antt =====
-- The life of a page outside a step, and the credits that are held:
-- packages/market-price/src/soldgraph-workflow.ts. `json` is `JSON.stringify` of a checkpoint. A Map
-- is a list of its entries in order of insertion.
pub mod Budget
pub mod Owners
pub mod Lifecycle
use Prim.Native.String.{String}
use hanamaru_shientool_prod.Prelude.{
  ℕ, zero, suc, ◌+◌, Bool, true, false, not, ◌&&◌, ◌||◌, Option, none, some, List, [], ◌∷◌, ltb,
  ◌==◌, if◌then◌else◌, Result, ok, err, is_some,
}
use hanamaru_shientool_prod.Prelude.Maps.{get, put}
use hanamaru_shientool_prod.Prelude.Text.{str_eq}
use hanamaru_shientool_prod.Contracts.{
  PageRequest, Checkpoint, Credits, zero_credits, credit_count, CreditState, PageState,
}
use hanamaru_shientool_prod.Soldgraph.Request.{
  Host, ContractError, validate_page_request, operation_key,
}
use hanamaru_shientool_prod.Soldgraph.Workflow.{
  Problem, contract_error, ledger_conflict, request_ownership_conflict, retry_not_confirmed_free,
  reconciliation_required, bump,
}

infixl 5 ◌>>=◌
abbrev pub ◌>>=◌ : {A B : Type 0} → Result Problem A → (A → Result Problem B) → Result Problem B
ok a >>= f = f a
err e >>= f = err e

abbrev pub contract : {A : Type 0} → Result ContractError A → Result Problem A
contract (ok a) = ok a
contract (err e) = err (contract_error e)

abbrev is_failed : PageState → Bool
is_failed PageState.failed = true
is_failed _ = false

abbrev is_reserved : PageState → Bool
is_reserved PageState.reserved = true
is_reserved _ = false

abbrev is_free : Option Credits → Bool
is_free (some zero_credits) = true
is_free _ = false

abbrev is_released : CreditState → Bool
is_released CreditState.released = true
is_released _ = false

abbrev is_unspent : CreditState → Bool
is_unspent CreditState.reserved = true
is_unspent _ = false

module _ (h : Host) where
  -- `newSoldgraphCheckpoint`.
  unfoldable pub new_checkpoint : String → PageRequest → Result Problem Checkpoint
  new_checkpoint search_id input = do
    request ← contract (validate_page_request h input)
    key ← contract (operation_key h search_id request 1)
    ok (record {
      operation_key = key;
      search_id = search_id;
      request = request;
      attempt = 1;
      request_id = none;
      credit_state = CreditState.reserved;
      credits = none;
      state = PageState.reserved;
      failure_class = none;
      retry_not_before = none;
      result = none;
      version = 0;
    })

  -- `explicitlyRetryFailedSoldgraphPage`.
  unfoldable pub explicit_retry : Checkpoint → Result Problem Checkpoint
  unfolding new_checkpoint
  explicit_retry previous =
      if not (is_failed previous.state)
        || not (is_free previous.credits)
        || not (is_released previous.credit_state)
        || not (is_some previous.request_id)
      then err retry_not_confirmed_free
      else do
        fresh ← new_checkpoint previous.search_id previous.request
        let attempt = previous.attempt + 1
        key ← contract (operation_key h previous.search_id previous.request attempt)
        ok (record fresh { attempt = attempt; operation_key = key })

-- `cancelUnsentSoldgraphPage`.
unfoldable pub cancel_unsent : Checkpoint → Result Problem Checkpoint
cancel_unsent previous =
    if not (is_reserved previous.state)
      || is_some previous.request_id
      || not (is_unspent previous.credit_state)
    then err reconciliation_required
    else ok (record previous {
      state = PageState.cancelled;
      credit_state = CreditState.released;
      credits = some zero_credits;
      version = previous.version + 1;
    })

-- What one checkpoint holds of the budget.
unfoldable pub held : Checkpoint → ℕ
held c = elim c.credit_state [
  | CreditState.released ↦ 0
  | CreditState.charged ↦ elim c.credits [ none ↦ 1 | some k ↦ credit_count k ]
  | _ ↦ 1
]

abbrev pub total : List (String × Checkpoint) → ℕ
total [] = 0
total ((k, c) ∷ m) = held c + total m

module _ (json : Checkpoint → String) where
  -- One round of the first loop: versions of one operation are one entry.
  enter :
      List (String × Checkpoint)
      → Checkpoint
      → Option Checkpoint
      → Result Problem (List (String × Checkpoint))
  enter seen c none = ok (put c.operation_key c seen)
  enter seen c (some p) =
      if p.version == c.version && not (str_eq (json p) (json c))
      then err ledger_conflict
      else if ltb p.version c.version
      then ok (put c.operation_key c seen)
      else ok seen

  unfoldable pub note :
      List (String × Checkpoint) → Checkpoint → Result Problem (List (String × Checkpoint))
  unfolding enter
  note seen c = enter seen c (get c.operation_key seen)

  unfoldable pub latest :
      List (String × Checkpoint) → List Checkpoint → Result Problem (List (String × Checkpoint))
  latest seen [] = ok seen
  latest seen (c ∷ cs) = note seen c >>= λ seen'. latest seen' cs

-- The second loop: a request ID belongs to one operation.
unfoldable pub own : List (String × String) → Checkpoint → Result Problem (List (String × String))
own owners c = elim c.request_id [
  | none ↦ ok owners
  | some id ↦ elim (get id owners) [
    | none ↦ ok (put id c.operation_key owners)
    | some owner ↦
        if str_eq owner c.operation_key
        then ok (put id c.operation_key owners)
        else err request_ownership_conflict
  ]
]

unfoldable pub owned :
    List (String × String) → List (String × Checkpoint) → Result Problem (List (String × String))
owned owners [] = ok owners
owned owners ((k, c) ∷ m) = own owners c >>= λ owners'. owned owners' m

-- `soldgraphBudgetHeld`.
unfoldable pub budget_held : (Checkpoint → String) → List Checkpoint → Result Problem ℕ
budget_held json cs = latest json [] cs >>= λ seen. owned [] seen >>= λ owners. ok (total seen)
