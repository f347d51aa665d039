-- ===== src/Soldgraph/Workflow.antt =====
-- One step of a page of results: packages/market-price/src/soldgraph-workflow.ts over the repository
-- of packages/database/src/soldgraph-checkpoints.ts. `World` is the page's row, the number of calls
-- of the store so far, and the log of what the step did (the newest first). `Surroundings` is what
-- the step meets: whether the lease still holds at each call of the store, the answer of
-- `permitted`, the two readings of the clock, and the provider's one reply. A request ID is not the
-- empty text: parseSoldgraphEnvelope lets none through.
pub mod Moves
pub mod Follows
pub mod Invariant
pub mod Traces
pub mod Stopping
pub mod Progress
pub mod Frees
use Prim.Native.String.{String}
use hanamaru_shientool_prod.Prelude.{
  ℕ, suc, ◌+◌, ◌*◌, Bool, true, false, not, ◌&&◌, ◌||◌, Option, none, some, List, [], ◌∷◌, ltb,
  ◌==◌, if◌then◌else◌, Result, ok, err, is_some,
}
use hanamaru_shientool_prod.Prelude.Text.{str_eq}
use hanamaru_shientool_prod.Json.{Json, safe_nat, safe_limit}
use hanamaru_shientool_prod.Contracts.{
  PageRequest, ParsedPage, Checkpoint, Envelope, Credits, zero_credits, one_credit, FailureClass,
  external_disabled, configuration, quota, upstream_limit, idempotency_conflict, contract,
  result_unknown, Deadline, at, unreadable, PageState, CreditState,
}
use hanamaru_shientool_prod.Contracts.Equality.{request_eq}
use hanamaru_shientool_prod.Soldgraph.Request.{
  Host, ContractError, validate_page_request, operation_key,
}

pub data Problem : Type 0 where
  contract_error : ContractError → Problem
  lease_required version_invalid version_conflict : Problem
  checkpoint_conflict disabled permission_error : Problem
  request_id_conflict ledger_conflict request_ownership_conflict : Problem
  retry_not_confirmed_free reconciliation_required : Problem

pub data Mode : Type 0 where
  enabled reconcile_only emergency_stop : Mode

-- The answer of `permitted()`: a Boolean, a mode, or a rejected promise.
pub data Permission : Type 0 where
  flag : Bool → Permission
  mode : Mode → Permission
  rejected : Permission

-- What the provider's promise does. An error named `SoldgraphProviderError` carries a failure class
-- (`none` if it is not one of the list) and a delay that has not been checked.
pub data Reply : Type 0 where
  answered : Envelope Json → Reply
  provider_error : Option FailureClass → Json → Reply
  other_error : Reply

pub record Surroundings : Type 0 where
  pub leased : ℕ → Bool
  pub permission : Permission
  pub now_before : ℕ
  pub now_after : ℕ
  pub reply : Reply

pub data Event : Type 0 where
  saved : Checkpoint → Event
  submitted : PageRequest → String → Event
  polled : String → Event

pub record World : Type 0 where
  pub row : Checkpoint
  pub calls : ℕ
  pub log : List Event

abbrev pub M : Type 0 → Type 0
M A = World → Result Problem A × World

infixl 5 ◌>>=◌ ◌>>◌
abbrev pub ◌>>=◌ : {A B : Type 0} → M A → (A → M B) → M B
◌>>=◌ m f w = let (r, w') = m w in elim r [ ok a ↦ f a w' | err e ↦ (err e, w') ]

abbrev pub ◌>>◌ : {A B : Type 0} → M A → M B → M B
m >> k = m >>= λ _. k

abbrev pub pure : {A : Type 0} → A → M A
pure a w = (ok a, w)

abbrev pub throw : {A : Type 0} → Problem → M A
throw p w = (err p, w)

-- `load`: the row under this key, if the worker holds the lease.
unfoldable pub load : Surroundings → String → M Checkpoint
load s key w =
    let after = record w { calls = w.calls + 1 } in
    if s.leased w.calls && str_eq w.row.operation_key key
    then (if ltb w.row.version safe_limit then (ok w.row, after) else (err version_invalid, after))
    else (err lease_required, after)

-- The columns that the UPDATE writes.
abbrev pub updated : Checkpoint → Checkpoint → Checkpoint
updated row next = record row {
  request_id = next.request_id;
  credit_state = next.credit_state;
  credits = next.credits;
  state = next.state;
  failure_class = next.failure_class;
  retry_not_before = next.retry_not_before;
  result = next.result;
  version = next.version;
}

-- The WHERE clause of the UPDATE, but for the lease.
abbrev row_matches : Checkpoint → Checkpoint → ℕ → Bool
row_matches row next expected =
    str_eq row.operation_key next.operation_key
    && row.version == expected
    && str_eq row.search_id next.search_id
    && row.attempt == next.attempt
    && request_eq row.request next.request

-- `save` of the repository.
unfoldable pub save : Surroundings → Checkpoint → ℕ → M (Unit {0})
save s next expected w =
    let after = record w { calls = w.calls + 1 } in
    if not (next.version == expected + 1) || not (ltb next.version safe_limit)
    then (err version_invalid, w)
    else if s.leased w.calls && row_matches w.row next expected
    then (ok tt, record after { row = updated w.row next; log = saved next ∷ w.log })
    else (err version_conflict, after)

-- The local `save`: the changed checkpoint under the next version, compared with the present one.
abbrev pub bump : Checkpoint → Checkpoint
bump c = record c { version = c.version + 1 }

unfoldable pub persist : Surroundings → Checkpoint → M Checkpoint
persist s changed = do let next = bump changed; save s next changed.version; pure next

-- The one call of the provider: a poll of a known request, or a submission under the operation key.
abbrev pub asked : Option String → PageRequest → String → Event
asked (some id) request key = polled id
asked none request key = submitted request key

unfoldable pub call_provider : Surroundings → Checkpoint → String → M Reply
call_provider s c key w = (ok s.reply, record w { log = asked c.request_id c.request key ∷ w.log })

-- Membership of `soldgraphFailureClasses`.
abbrev listed : FailureClass → Bool
listed FailureClass.parse_failed = false
listed _ = true

abbrev classify : Reply → FailureClass
classify (provider_error (some f) d) = if listed f then f else result_unknown
classify _ = result_unknown

abbrev pub blocks : FailureClass → Bool
blocks external_disabled = true
blocks configuration = true
blocks quota = true
blocks upstream_limit = true
blocks idempotency_conflict = true
blocks contract = true
blocks _ = false

abbrev delay_of : Reply → Option ℕ
delay_of (provider_error f d) = safe_nat d
delay_of _ = none

-- The last instant that a `Date` can hold is 8.64e15 ms.
abbrev deadline_of : ℕ → Option ℕ → Option Deadline
deadline_of now none = none
deadline_of now (some d) =
    let t = now + d * 1000 in
    if ltb t safe_limit && ltb t 8640000000000000 then some (at t) else none

abbrev pub unsettled : Option Credits → CreditState → CreditState
unsettled none s = CreditState.unknown
unsettled (some c) s = s

-- The checkpoint that the `catch` of the provider's call saves.
abbrev pub after_failure : Checkpoint → FailureClass → Option Deadline → Checkpoint
after_failure c f d = record c {
  state = if blocks f then PageState.blocked else PageState.unknown;
  failure_class = some f;
  retry_not_before = d;
  credit_state = unsettled c.credits c.credit_state;
}

abbrev pub settled_state : Credits → CreditState
settled_state zero_credits = CreditState.released
settled_state one_credit = CreditState.charged

abbrev credits_eq : Credits → Credits → Bool
credits_eq a b = elim (a) [
  | zero_credits ↦ elim b [ zero_credits ↦ true | one_credit ↦ false ]
  | one_credit ↦ elim b [ zero_credits ↦ false | one_credit ↦ true ]
]

abbrev envelope_id : Envelope Json → String
envelope_id (Envelope.pending id cached) = id
envelope_id (Envelope.failed id cached) = id
envelope_id (Envelope.complete id c cached raw) = id

-- `current.requestId && current.requestId !== envelope.requestId`.
abbrev id_conflict : Option String → String → Bool
id_conflict none id = false
id_conflict (some old) id = not (str_eq old id)

-- `current.credits !== null && (envelope.status !== "complete" || envelope.credits !== …)`.
abbrev credit_conflict : Option Credits → Envelope Json → Bool
credit_conflict none e = false
credit_conflict (some old) (Envelope.complete id c cached raw) = not (credits_eq c old)
credit_conflict (some old) _ = true

abbrev is_reconcile : Mode → Bool
is_reconcile reconcile_only = true
is_reconcile _ = false

abbrev pub after_pending : Checkpoint → String → Checkpoint
after_pending c id = record c {
  request_id = some id;
  state = PageState.pending;
  credit_state = CreditState.pending;
  failure_class = none;
  retry_not_before = none;
}

abbrev pub after_failed : Checkpoint → String → Checkpoint
after_failed c id = record c {
  request_id = some id;
  state = PageState.failed;
  credit_state = CreditState.released;
  credits = some zero_credits;
  failure_class = none;
  retry_not_before = none;
}

abbrev pub after_credits : Checkpoint → String → Credits → Checkpoint
after_credits c id k = record c {
  request_id = some id;
  credits = some k;
  credit_state = settled_state k;
}

abbrev pub after_misparse : Checkpoint → Checkpoint
after_misparse c = record c {
  state = PageState.parse_failed;
  failure_class = some FailureClass.parse_failed;
}

abbrev pub after_parse : Checkpoint → ParsedPage → Checkpoint
after_parse c page = record c {
  state = PageState.complete;
  result = some page;
  failure_class = none;
  retry_not_before = none;
}

abbrev pub is_terminal : PageState → Bool
is_terminal PageState.complete = true
is_terminal PageState.failed = true
is_terminal PageState.cancelled = true
is_terminal PageState.blocked = true
is_terminal _ = false

-- `permission === true ? "enabled" : permission === false ? "emergency_stop" : permission`.
abbrev pub mode_of : Permission → Option Mode
mode_of (flag true) = some enabled
mode_of (flag false) = some emergency_stop
mode_of (mode m) = some m
mode_of rejected = none

abbrev pub forbidden : Mode → Option String → Bool
forbidden enabled id = false
forbidden reconcile_only id = not (is_some id)
forbidden emergency_stop id = true

-- Whether the deadline of a retry lets the step go on; `none` if it is no date.
abbrev due : Option Deadline → ℕ → Option Bool
due none now = some true
due (some (at t)) now = some (not (ltb now t))
due (some unreadable) now = none

module _ (h : Host) (parse : Json → PageRequest → Result ContractError ParsedPage)
    (s : Surroundings) where
  publish : Checkpoint → Result ContractError ParsedPage → M Checkpoint
  publish c (ok page) = persist s (after_parse c page)
  publish c (err e) = persist s (after_misparse c)

  -- What follows a reply that passed the tests of identity and credits.
  accept : Mode → Checkpoint → Envelope Json → M Checkpoint
  accept m c (Envelope.pending id cached) = persist s (after_pending c id)
  accept m c (Envelope.failed id cached) = persist s (after_failed c id)
  accept m c (Envelope.complete id k cached raw) = do
    next ← persist s (after_credits c id k)
    if is_reconcile m then pure next else publish next (parse raw next.request)

  settle : Mode → Checkpoint → Reply → M Checkpoint
  settle m c (answered e) =
      if id_conflict c.request_id (envelope_id e)
      then throw request_id_conflict
      else if credit_conflict c.credits e
      then throw ledger_conflict
      else accept m c e
  settle m c (provider_error f d) =
      persist s
        (after_failure c (classify (provider_error f d)) (deadline_of s.now_after (safe_nat d)))
  settle m c other_error = persist s (after_failure c result_unknown none)

  -- The exact key is persisted before a request that may be charged.
  dispatch : Option String → Checkpoint → M Checkpoint
  dispatch (some id) c = pure c
  dispatch none c = persist s (record c { state = PageState.dispatching })

  exchange : Mode → Checkpoint → String → M Checkpoint
  exchange m c key = do
    ready ← dispatch c.request_id c
    reply ← call_provider s ready key
    settle m ready reply

  permit : Checkpoint → String → Option Mode → M Checkpoint
  permit c key none = throw permission_error
  permit c key (some m) = if forbidden m c.request_id then throw disabled else exchange m c key

  wait : Checkpoint → String → Option Bool → M Checkpoint
  wait c key none = throw checkpoint_conflict
  wait c key (some false) = pure c
  wait c key (some true) = permit c key (mode_of s.permission)

  checked : Checkpoint → String → Result ContractError String → M Checkpoint
  checked c key (err e) = throw (contract_error e)
  checked c key (ok own) =
      if not (str_eq own key)
      then throw checkpoint_conflict
      else if is_terminal c.state
      then pure c
      else wait c key (due c.retry_not_before s.now_before)

  identify : Checkpoint → String → M Checkpoint
  identify c key =
      if str_eq c.operation_key key
      then checked c key (operation_key h c.search_id c.request c.attempt)
      else throw checkpoint_conflict

  -- `advanceSoldgraphPage`.
  unfoldable pub advance : String → M Checkpoint
  unfolding identify checked wait permit exchange dispatch settle accept publish
  advance key = do c ← load s key; identify c key
