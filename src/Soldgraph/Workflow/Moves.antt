-- ===== src/Soldgraph/Workflow/Moves.antt =====
-- The state machine of a page as a relation, and the proof that a step of
-- packages/market-price/src/soldgraph-workflow.ts follows it, whatever the provider, the clock and
-- the lease do.
use hanamaru_shientool_prod.Prelude.{
  ℕ, ◌≡◌, false, Option, none, some, Result, ok, err, arith, String,
}
use hanamaru_shientool_prod.Contracts.{
  ParsedPage, Checkpoint, Credits, FailureClass, Deadline, PageState,
}
use hanamaru_shientool_prod.Soldgraph.Workflow.{
  Problem, Surroundings, World, bump, is_terminal, after_failure, after_pending, after_failed,
  after_credits, after_misparse, after_parse, save, updated,
}

-- A request ID that is kept or given for the first time.
abbrev pub Keeps : Option String → String → Type 0
Keeps none id = Unit
Keeps (some old) id = old ≡ id

-- Credits that are kept or settled for the first time.
abbrev pub Settles : Option Credits → Credits → Type 0
Settles none k = Unit
Settles (some old) k = k ≡ old

-- A reply belongs to a request that has an ID, or whose dispatch has been saved.
abbrev pub IsSent : Option String → PageState → Type 0
IsSent none state = state ≡ PageState.dispatching
IsSent (some id) state = Unit

pub data Move (c : Checkpoint) : Checkpoint → Type 0 where
  dispatch :
      is_terminal c.state ≡ false
      → c.request_id ≡ none
      → Move c (bump (record c { state = PageState.dispatching }))
  fail :
      (f : FailureClass) (d : Option Deadline)
      → is_terminal c.state ≡ false
      → IsSent c.request_id c.state
      → Move c (bump (after_failure c f d))
  pend :
      (id : String)
      → is_terminal c.state ≡ false
      → IsSent c.request_id c.state
      → Keeps c.request_id id
      → c.credits ≡ none
      → Move c (bump (after_pending c id))
  refuse :
      (id : String)
      → is_terminal c.state ≡ false
      → IsSent c.request_id c.state
      → Keeps c.request_id id
      → c.credits ≡ none
      → Move c (bump (after_failed c id))
  settle :
      (id : String) (k : Credits)
      → is_terminal c.state ≡ false
      → IsSent c.request_id c.state
      → Keeps c.request_id id
      → Settles c.credits k
      → Move c (bump (after_credits c id k))
  misparse :
      (id : String) (k : Credits)
      → is_terminal c.state ≡ false
      → c.request_id ≡ some id
      → c.credits ≡ some k
      → Move c (bump (after_misparse c))
  publish :
      (id : String) (k : Credits) (page : ParsedPage)
      → is_terminal c.state ≡ false
      → c.request_id ≡ some id
      → c.credits ≡ some k
      → Move c (bump (after_parse c page))

pub data Moves (c : Checkpoint) : Checkpoint → Type 0 where
  here : Moves c c
  next : {d e : Checkpoint} → Moves c d → Move d e → Moves c e

pub Moves-trans : {c d e : Checkpoint} → Moves c d → Moves d e → Moves c e
Moves-trans p here = p
Moves-trans p (next q m) = next (Moves-trans p q) m

-- What a call of `save` leaves in the row: the written columns, or nothing new.
abbrev pub Written : Checkpoint → Checkpoint → Result Problem (Unit {0}) × World → Type 0
Written old n (ok u, w) = w.row ≡ updated old n
Written old n (err p, w) = w.row ≡ old

pub save-Written :
    (s : Surroundings) (n : Checkpoint) (expected : ℕ) (w : World)
    → Written w.row n (save s n expected w)
unfolding save
save-Written s n expected w = ground arith
