-- ===== src/Soldgraph/Workflow/Invariant.antt =====
-- What holds of a page's row at all times: packages/market-price/src/soldgraph-workflow.ts. The facts
-- are proved of one move, then of what `advanceSoldgraphPage` does.
use hanamaru_shientool_prod.Prelude.{
  ◌+◌, ◌≤◌, ◌≡◌, refl, sym, ◌∙◌, ap, subst, ◌⊎◌, true, false, Option, none, some, arith, String,
  Result,
}
use hanamaru_shientool_prod.Json.{Json}
use hanamaru_shientool_prod.Contracts.{
  PageRequest, ParsedPage, Checkpoint, Credits, zero_credits, CreditState, PageState,
}
use hanamaru_shientool_prod.Soldgraph.Request.{Host, ContractError}
use hanamaru_shientool_prod.Soldgraph.Workflow.{
  Surroundings, World, updated, is_terminal, settled_state, advance,
}
use hanamaru_shientool_prod.Soldgraph.Workflow.Moves.{Move, Moves, Keeps}
use hanamaru_shientool_prod.Soldgraph.Workflow.Follows.{advance-Follows}

-- The credit state agrees with the credits that the provider has settled.
abbrev pub Agree : Option Credits → CreditState → Type 0
Agree (some k) s = s ≡ settled_state k
Agree none s = (s ≡ CreditState.reserved) ⊎ ((s ≡ CreditState.pending) ⊎ (s ≡ CreditState.unknown))

abbrev pub HasRequest : Option String → Type 0
HasRequest none = ⊥
HasRequest (some id) = Unit

abbrev pub IsSettled : Option Credits → Type 0
IsSettled none = ⊥
IsSettled (some k) = Unit

-- What the state promises of the other columns.
abbrev pub StateHolds : PageState → Checkpoint → Type 0
StateHolds PageState.reserved c =
    (c.request_id ≡ none) × (c.credits ≡ none) × (c.credit_state ≡ CreditState.reserved)
StateHolds PageState.pending c = HasRequest c.request_id
StateHolds PageState.failed c = HasRequest c.request_id × (c.credits ≡ some zero_credits)
StateHolds PageState.complete c =
    HasRequest c.request_id × IsSettled c.credits × ((page : ParsedPage) × (c.result ≡ some page))
StateHolds PageState.parse_failed c = HasRequest c.request_id × IsSettled c.credits
StateHolds PageState.cancelled c = (c.request_id ≡ none) × (c.credits ≡ some zero_credits)
StateHolds _ c = Unit

pub record WellFormed (c : Checkpoint) : Type 0 where
  pub agree : Agree c.credits c.credit_state
  pub state_holds : StateHolds c.state c
  pub published : (page : ParsedPage) → c.result ≡ some page → c.state ≡ PageState.complete

Move-WellFormed : {c d : Checkpoint} → Move c d → WellFormed c → WellFormed d
Move-WellFormed {c} (Move.dispatch t i) v = record {
  agree = ground arith;
  state_holds = ground arith;
  published = λ page p. ground (arith, v.published page);
}
Move-WellFormed {c} (Move.fail f d t u) v = record {
  agree = ground arith;
  state_holds = ground arith;
  published = λ page p. ground (arith, v.published page);
}
Move-WellFormed {c} (Move.pend id t u i q) v = record {
  agree = ground arith;
  state_holds = ground arith;
  published = λ page p. ground (arith, v.published page);
}
Move-WellFormed {c} (Move.refuse id t u i q) v = record {
  agree = ground arith;
  state_holds = ground arith;
  published = λ page p. ground (arith, v.published page);
}
Move-WellFormed {c} (Move.settle id k t u i q) v = record {
  agree = ground arith;
  state_holds = ground arith;
  published = λ page p. ground (arith, v.published page);
}
Move-WellFormed {c} (Move.misparse id k t i q) v = record {
  agree = ground arith;
  state_holds = ground arith;
  published = λ page p. ground (arith, v.published page);
}
Move-WellFormed {c} (Move.publish id k page t i q) v = record {
  agree = ground arith;
  state_holds = ground arith;
  published = λ page p. ground (arith, v.published page);
}

pub Moves-WellFormed : {c d : Checkpoint} → Moves c d → WellFormed c → WellFormed d
Moves-WellFormed Moves.here v = v
Moves-WellFormed (Moves.next p m) v = Move-WellFormed m (Moves-WellFormed p v)

Move-credits : {c d : Checkpoint} (k : Credits) → Move c d → c.credits ≡ some k → d.credits ≡ some k
Move-credits k (Move.dispatch t i) e = e
Move-credits k (Move.fail f d t u) e = e
Move-credits k (Move.pend id t u i q) e = cc
Move-credits k (Move.refuse id t u i q) e = cc
Move-credits {c} k (Move.settle id k' t u i q) e = ground arith
Move-credits k (Move.misparse id k' t i q) e = e
Move-credits k (Move.publish id k' page t i q) e = e

Moves-credits :
    {c d : Checkpoint} (k : Credits) → Moves c d → c.credits ≡ some k → d.credits ≡ some k
Moves-credits k Moves.here e = e
Moves-credits k (Moves.next p m) e = Move-credits k m (Moves-credits k p e)

-- The columns that name the operation, and the request ID once it is known.
pub record Continues (c d : Checkpoint) : Type 0 where
  pub operation_key : d.operation_key ≡ c.operation_key
  pub search_id : d.search_id ≡ c.search_id
  pub request : d.request ≡ c.request
  pub attempt : d.attempt ≡ c.attempt
  pub request_id : (id : String) → c.request_id ≡ some id → d.request_id ≡ some id
  pub version : c.version ≤ d.version

continues :
    (c d : Checkpoint)
    → updated c d ≡ d
    → d.version ≡ c.version + 1
    → ((id : String) → c.request_id ≡ some id → d.request_id ≡ some id)
    → Continues c d
continues c d e v keeps = record {
  operation_key = sym (ap (λ x. x.operation_key) e);
  search_id = sym (ap (λ x. x.search_id) e);
  request = sym (ap (λ x. x.request) e);
  attempt = sym (ap (λ x. x.attempt) e);
  request_id = keeps;
  version = omega arith;
}

-- An ID that is known is the one that a reply is checked against.
same_id :
    (old : Option String) (new : String)
    → Keeps old new
    → (id : String) → old ≡ some id
    → some new ≡ some id
same_id none new k id e = cc
same_id (some old) new k id e = cc

Move-Continues : {c d : Checkpoint} → Move c d → Continues c d
Move-Continues (Move.dispatch t i) = continues _ _ refl refl (λ id e. e)
Move-Continues (Move.fail f d t u) = continues _ _ refl refl (λ id e. e)
Move-Continues (Move.pend id t u i q) = continues _ _ refl refl (same_id _ id i)
Move-Continues (Move.refuse id t u i q) = continues _ _ refl refl (same_id _ id i)
Move-Continues (Move.settle id k t u i q) = continues _ _ refl refl (same_id _ id i)
Move-Continues (Move.misparse id k t i q) = continues _ _ refl refl (λ id e. e)
Move-Continues (Move.publish id k page t i q) = continues _ _ refl refl (λ id e. e)

Continues-trans : {c d e : Checkpoint} → Continues c d → Continues d e → Continues c e
Continues-trans p q = record {
  operation_key = q.operation_key ∙ p.operation_key;
  search_id = q.search_id ∙ p.search_id;
  request = q.request ∙ p.request;
  attempt = q.attempt ∙ p.attempt;
  request_id = λ id e. q.request_id id (p.request_id id e);
  version = omega arith;
}

Moves-Continues : {c d : Checkpoint} → Moves c d → Continues c d
Moves-Continues {c} Moves.here = record {
  operation_key = refl;
  search_id = refl;
  request = refl;
  attempt = refl;
  request_id = λ id e. e;
  version = omega arith;
}
Moves-Continues (Moves.next p m) = Continues-trans (Moves-Continues p) (Move-Continues m)

Move-open : {c d : Checkpoint} → Move c d → is_terminal c.state ≡ false
Move-open (Move.dispatch t i) = t
Move-open (Move.fail f d t u) = t
Move-open (Move.pend id t u i q) = t
Move-open (Move.refuse id t u i q) = t
Move-open (Move.settle id k t u i q) = t
Move-open (Move.misparse id k t i q) = t
Move-open (Move.publish id k page t i q) = t

Moves-terminal : {c d : Checkpoint} → Moves c d → is_terminal c.state ≡ true → d ≡ c
Moves-terminal Moves.here t = refl
Moves-terminal {c} (Moves.next {d} p m) t =
    let same = Moves-terminal p t in
    let open_ = ap (λ x. is_terminal x.state) same ∙ t in cc (Move-open m)

module _ (h : Host) (parse : Json → PageRequest → Result ContractError ParsedPage)
    (s : Surroundings) (key : String) (w : World) where
  abbrev after : Checkpoint
  after = (advance h parse s key w).1.row

  -- A step keeps a well-formed row well formed, on every path, errors included: the credit state
  -- agrees with the settled credits, a complete page has a request, settled credits and a result, a
  -- failed one is free, and a result is there only when the page is complete.
  pub advance-WellFormed : WellFormed w.row → WellFormed after
  advance-WellFormed v = Moves-WellFormed (advance-Follows h parse s key w).0 v

  -- Settled credits are final: no step, whatever the provider answers and whether or not the result
  -- can be parsed, changes them, and in a well-formed row the credit state goes with them.
  pub advance-credits_final :
      (k : Credits)
      → WellFormed w.row
      → w.row.credits ≡ some k
      → (after.credits ≡ some k) × (after.credit_state ≡ settled_state k)
  advance-credits_final k v e =
      let same = Moves-credits k (advance-Follows h parse s key w).0 e in
      (same, subst (λ q. Agree q after.credit_state) same (advance-WellFormed v).agree)

  -- A step never renames the operation, changes its request or its attempt, gives up a request ID
  -- that it knows, or goes back to an earlier version.
  pub advance-Continues : Continues w.row after
  advance-Continues = Moves-Continues (advance-Follows h parse s key w).0

  -- A page that is complete, failed, cancelled or blocked is never written again.
  pub advance-terminal : is_terminal w.row.state ≡ true → after ≡ w.row
  advance-terminal t = Moves-terminal (advance-Follows h parse s key w).0 t
