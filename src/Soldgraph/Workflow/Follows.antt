-- ===== src/Soldgraph/Workflow/Follows.antt =====
-- A step of packages/market-price/src/soldgraph-workflow.ts follows the state machine of Moves.
use hanamaru_shientool_prod.Prelude.{
  if◌then◌else◌, ◌≡◌, refl, sym, subst, inl, inr, Bool, true, false, Option, none, some, Result, ok,
  err, arith, String, Bool-cases, eq_iff, ◌∙◌,
}
use hanamaru_shientool_prod.Prelude.Text.{str_eq}
use hanamaru_shientool_prod.Json.{Json}
use hanamaru_shientool_prod.Contracts.{
  PageRequest, ParsedPage, Checkpoint, Envelope, Credits, PageState,
}
use hanamaru_shientool_prod.Soldgraph.Request.{Host, ContractError, operation_key}
use hanamaru_shientool_prod.Soldgraph.Workflow.{
  Problem, contract_error, checkpoint_conflict, disabled, permission_error, request_id_conflict,
  ledger_conflict, Mode, Reply, answered, provider_error, other_error, Surroundings, World, M,
  ◌>>=◌, pure, bump, is_terminal, after_pending, after_failed, after_credits, after_misparse,
  after_parse, save, persist, load, updated, publish, accept, call_provider, dispatch, settle,
  exchange, permit, wait, checked, identify, advance, is_reconcile, id_conflict, credit_conflict,
  envelope_id, forbidden, mode_of, due,
}
use hanamaru_shientool_prod.Soldgraph.Workflow.Moves.{
  Keeps, Settles, IsSent, Move, Moves, Moves-trans, Written, save-Written,
}

abbrev Synced : Result Problem Checkpoint → Checkpoint → Type 0
Synced (ok d) row = row ≡ d
Synced (err p) row = Unit

-- The row has moved on from `c`, and is what the step returns, if it returns.
abbrev pub Follows : Checkpoint → Result Problem Checkpoint × World → Type 0
Follows c (r, w) = Moves c w.row × Synced r w.row

Follows-trans :
    {c d : Checkpoint} (r : Result Problem Checkpoint × World)
    → Moves c d
    → Follows d r
    → Follows c r
Follows-trans (r, w) p (q, e) = (Moves-trans p q, e)

-- A computation in which nothing is written.
stay :
    (c : Checkpoint) (r : Result Problem Checkpoint) (w : World)
    → w.row ≡ c
    → Synced r c
    → Follows c (r, w)
stay c r w e h = rw e (Moves.here, h)

after_save :
    (c d : Checkpoint) (w : World) (k : Checkpoint → M Checkpoint)
    → updated c (bump d) ≡ bump d
    → Move c (bump d)
    → ((w' : World) → w'.row ≡ bump d → Follows (bump d) (k (bump d) w'))
    → (x : Result Problem (Unit {0}) × World) → Written c (bump d) x
    → Follows c ((((λ _. x) >>= λ _. pure (bump d)) >>= k) w)
after_save c d w k same move rest (ok u, w') h =
    Follows-trans (k (bump d) w') (Moves.next Moves.here move) (rest w' (h ∙ same))
after_save c d w k same move rest (err p, w') h = stay c (err p) w' h tt

after_last_save :
    (c d : Checkpoint) (w : World)
    → updated c (bump d) ≡ bump d
    → Move c (bump d)
    → (x : Result Problem (Unit {0}) × World) → Written c (bump d) x
    → Follows c (((λ _. x) >>= λ _. pure (bump d)) w)
after_last_save c d w same move (ok u, w') h =
    Follows-trans (ok (bump d), w') (Moves.next Moves.here move)
      (stay (bump d) (ok (bump d)) w' (h ∙ same) refl)
after_last_save c d w same move (err p, w') h = stay c (err p) w' h tt

-- What `load` gives: the row as it stands.
abbrev Loaded : Checkpoint → Result Problem Checkpoint × World → Type 0
Loaded old (ok c, w) = (c ≡ old) × (w.row ≡ old)
Loaded old (err p, w) = w.row ≡ old

load-Loaded : (s : Surroundings) (key : String) (w : World) → Loaded w.row (load s key w)
unfolding load
load-Loaded s key w = ground arith

module _ (s : Surroundings) where
  -- A save of the next version, and what follows it.
  persist_bind :
      (c d : Checkpoint) (w : World) (k : Checkpoint → M Checkpoint)
      → w.row ≡ c
      → updated c (bump d) ≡ bump d
      → Move c (bump d)
      → ((w' : World) → w'.row ≡ bump d → Follows (bump d) (k (bump d) w'))
      → Follows c ((persist s d >>= k) w)
  unfolding persist
  persist_bind c d w k e same move rest =
      after_save c d w k same move rest (save s (bump d) d.version w) (
        subst (λ r. Written r (bump d) (save s (bump d) d.version w)) e
          (save-Written s (bump d) d.version w))

  persist_last :
      (c d : Checkpoint) (w : World)
      → w.row ≡ c
      → updated c (bump d) ≡ bump d
      → Move c (bump d)
      → Follows c (persist s d w)
  unfolding persist
  persist_last c d w e same move = after_last_save c d w same move (save s (bump d) d.version w) (
      subst (λ r. Written r (bump d) (save s (bump d) d.version w)) e
        (save-Written s (bump d) d.version w))

sent : (r : Option String) (id : String) (state : PageState) → r ≡ some id → IsSent r state
sent none id state h = cc
sent (some old) id state h = tt

dispatched : (r : Option String) → r ≡ none → IsSent r PageState.dispatching
dispatched none h = refl
dispatched (some id) h = tt

keeps : (old : Option String) (id : String) → id_conflict old id ≡ false → Keeps old id
keeps none id h = tt
keeps (some old) id h = ground (arith, eq_iff old id)

settles :
    (old : Option Credits) (id : String) (k : Credits) (b : Bool) (raw : Json)
    → credit_conflict old (Envelope.complete id k b raw) ≡ false
    → Settles old k
settles none id k b raw h = tt
settles (some old) id k b raw h = ground arith

module _ (h : Host) (parse : Json → PageRequest → Result ContractError ParsedPage)
    (s : Surroundings) where
  publish-Follows :
      (c : Checkpoint) (w : World) (r : Result ContractError ParsedPage) (id : String) (k : Credits)
      → w.row ≡ c
      → is_terminal c.state ≡ false
      → c.request_id ≡ some id
      → c.credits ≡ some k
      → Follows c (publish h parse s c r w)
  unfolding publish
  publish-Follows c w (ok page) id k e t i q =
      persist_last s c (after_parse c page) w e refl (Move.publish id k page t i q)
  publish-Follows c w (err x) id k e t i q =
      persist_last s c (after_misparse c) w e refl (Move.misparse id k t i q)

  resume-Follows :
      (b : Bool) (c : Checkpoint) (w : World) (raw : Json) (id : String) (k : Credits)
      → w.row ≡ c
      → is_terminal c.state ≡ false
      → c.request_id ≡ some id
      → c.credits ≡ some k
      → Follows c ((if b then pure c else publish h parse s c (parse raw c.request)) w)
  resume-Follows true c w raw id k e t i q = stay c (ok c) w e refl
  resume-Follows false c w raw id k e t i q = publish-Follows c w (parse raw c.request) id k e t i q

  accept-Follows :
      (m : Mode) (c : Checkpoint) (w : World) (e : Envelope Json)
      → w.row ≡ c
      → is_terminal c.state ≡ false
      → IsSent c.request_id c.state
      → id_conflict c.request_id (envelope_id e) ≡ false
      → credit_conflict c.credits e ≡ false
      → Follows c (accept h parse s m c e w)
  unfolding accept
  accept-Follows m c w (Envelope.pending id b) e t u i q =
      persist_last s c (after_pending c id) w e refl
        (Move.pend id t u (keeps c.request_id id i) (ground arith))
  accept-Follows m c w (Envelope.failed id b) e t u i q =
      persist_last s c (after_failed c id) w e refl
        (Move.refuse id t u (keeps c.request_id id i) (ground arith))
  accept-Follows m c w (Envelope.complete id k b raw) e t u i q =
      persist_bind s c (after_credits c id k) w
        (λ next.
          if is_reconcile m then pure next else publish h parse s next (parse raw next.request))
        e refl (Move.settle id k t u (keeps c.request_id id i) (settles c.credits id k b raw q))
        (λ w' e'.
          resume-Follows (is_reconcile m) (bump (after_credits c id k)) w' raw id k e' t refl refl)

  settle-Follows :
      (m : Mode) (c : Checkpoint) (w : World) (r : Reply)
      → w.row ≡ c
      → is_terminal c.state ≡ false
      → IsSent c.request_id c.state
      → Follows c (settle h parse s m c r w)
  unfolding settle
  settle-Follows m c w (answered env) e t u =
      elim (Bool-cases (id_conflict c.request_id (envelope_id env))) [
        | inl bad ↦ rw bad (stay c (err request_id_conflict) w e tt)
        | inr same ↦ rw same (elim (Bool-cases (credit_conflict c.credits env)) [
          | inl bad ↦ rw bad (stay c (err ledger_conflict) w e tt)
          | inr agree ↦ rw agree (accept-Follows m c w env e t u same agree)
        ])
      ]
  settle-Follows m c w (provider_error f d) e t u = persist_last s c _ w e refl (Move.fail _ _ t u)
  settle-Follows m c w other_error e t u = persist_last s c _ w e refl (Move.fail _ _ t u)

  reply-Follows :
      (m : Mode) (c : Checkpoint) (key : String) (w : World)
      → w.row ≡ c
      → is_terminal c.state ≡ false
      → IsSent c.request_id c.state
      → Follows c ((call_provider s c key >>= settle h parse s m c) w)
  unfolding call_provider
  reply-Follows m c key w e t u = settle-Follows m c _ s.reply e t u

  dispatch-Follows :
      (m : Mode) (id : Option String) (c : Checkpoint) (key : String) (w : World)
      → w.row ≡ c
      → is_terminal c.state ≡ false
      → c.request_id ≡ id
      → Follows c (
          (dispatch h parse s id c >>= λ ready.
          call_provider s ready key >>= settle h parse s m ready)
            w)
  unfolding dispatch
  dispatch-Follows m (some id) c key w e t i =
      reply-Follows m c key w e t (sent c.request_id id c.state i)
  dispatch-Follows m none c key w e t i =
      persist_bind s c (record c { state = PageState.dispatching }) w
        (λ ready. call_provider s ready key >>= settle h parse s m ready) e refl (Move.dispatch t i)
        (λ w' e'. reply-Follows m _ key w' e' refl (dispatched c.request_id i))

  exchange-Follows :
      (m : Mode) (c : Checkpoint) (key : String) (w : World)
      → w.row ≡ c
      → is_terminal c.state ≡ false
      → Follows c (exchange h parse s m c key w)
  unfolding exchange
  exchange-Follows m c key w e t = dispatch-Follows m c.request_id c key w e t refl

  permit-Follows :
      (m : Option Mode) (c : Checkpoint) (key : String) (w : World)
      → w.row ≡ c
      → is_terminal c.state ≡ false
      → Follows c (permit h parse s c key m w)
  unfolding permit
  permit-Follows none c key w e t = stay c (err permission_error) w e tt
  permit-Follows (some m) c key w e t = elim (Bool-cases (forbidden m c.request_id)) [
    | inl no_entry ↦ rw no_entry (stay c (err disabled) w e tt)
    | inr free ↦ rw free (exchange-Follows m c key w e t)
  ]

  wait-Follows :
      (b : Option Bool) (c : Checkpoint) (key : String) (w : World)
      → w.row ≡ c
      → is_terminal c.state ≡ false
      → Follows c (wait h parse s c key b w)
  unfolding wait
  wait-Follows none c key w e t = stay c (err checkpoint_conflict) w e tt
  wait-Follows (some false) c key w e t = stay c (ok c) w e refl
  wait-Follows (some true) c key w e t = permit-Follows (mode_of s.permission) c key w e t

  checked-Follows :
      (r : Result ContractError String) (c : Checkpoint) (key : String) (w : World)
      → w.row ≡ c
      → Follows c (checked h parse s c key r w)
  unfolding checked
  checked-Follows (err x) c key w e = stay c (err (contract_error x)) w e tt
  checked-Follows (ok own) c key w e = elim (Bool-cases (str_eq own key)) [
    | inr other ↦ rw other (stay c (err checkpoint_conflict) w e tt)
    | inl same ↦ rw same (elim (Bool-cases (is_terminal c.state)) [
      | inl over ↦ rw over (stay c (ok c) w e refl)
      | inr open_ ↦ rw open_ (wait-Follows (due c.retry_not_before s.now_before) c key w e open_)
    ])
  ]

  identify-Follows :
      (c : Checkpoint) (key : String) (w : World)
      → w.row ≡ c
      → Follows c (identify h parse s c key w)
  unfolding identify
  identify-Follows c key w e = elim (Bool-cases (str_eq c.operation_key key)) [
    | inr other ↦ rw other (stay c (err checkpoint_conflict) w e tt)
    | inl same ↦
        rw same (checked-Follows (operation_key h c.search_id c.request c.attempt) c key w e)
  ]

  Loaded-Follows :
      (old : Checkpoint) (key : String) (x : Result Problem Checkpoint × World)
      → Loaded old x
      → Follows old (((λ _. x) >>= λ c. identify h parse s c key) x.1)
  Loaded-Follows old key (ok c, w) (same, e) =
      subst (λ d. Follows d (identify h parse s c key w)) same
        (identify-Follows c key w (e ∙ sym same))
  Loaded-Follows old key (err p, w) e = stay old (err p) w e tt

  -- Whatever the provider, the clock, the permission and the lease do, the row that a step leaves is
  -- reached from the row that it found by moves of the state machine, and a checkpoint that the step
  -- returns is the row that it leaves.
  pub advance-Follows : (key : String) (w : World) → Follows w.row (advance h parse s key w)
  unfolding advance
  advance-Follows key w = Loaded-Follows w.row key (load s key w) (load-Loaded s key w)
