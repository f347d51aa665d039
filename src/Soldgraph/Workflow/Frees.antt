-- ===== src/Soldgraph/Workflow/Frees.antt =====
-- What frees the credit that a page holds: a step of packages/market-price/src/soldgraph-workflow.ts
-- settles credits as zero only on a reply that says so.
use Prim.Native.String.{String}
use hanamaru_shientool_prod.Prelude.{
  Bool, true, false, not, Option, none, some, ◌∷◌, Result, ok, err, ◌≡◌, refl, inl, inr, Bool-cases,
  arith, if◌then◌else◌,
}
use hanamaru_shientool_prod.Prelude.Text.{str_eq}
use hanamaru_shientool_prod.Json.{Json, safe_nat}
use hanamaru_shientool_prod.Contracts.{
  PageRequest, ParsedPage, Checkpoint, Envelope, Credits, zero_credits, one_credit, PageState,
}
use hanamaru_shientool_prod.Soldgraph.Request.{Host, ContractError, operation_key}
use hanamaru_shientool_prod.Soldgraph.Workflow.{
  Problem, Mode, Reply, answered, provider_error, other_error, Surroundings, World, M, ◌>>=◌, pure,
  throw, load, save, persist, call_provider, asked, after_failure, after_pending, after_credits,
  after_misparse, after_parse, classify, deadline_of, FailureClass, id_conflict, envelope_id,
  credit_conflict, is_reconcile, publish, accept, settle, dispatch, exchange, permit, wait, checked,
  identify, advance, forbidden, is_terminal, due, mode_of,
}

-- The provider says that the request failed, or that it completed and cost nothing.
abbrev pub frees : Reply → Bool
frees (answered (Envelope.failed id cached)) = true
frees (answered (Envelope.complete id zero_credits cached raw)) = true
frees _ = false

abbrev pub is_zero_credits : Option Credits → Bool
is_zero_credits (some zero_credits) = true
is_zero_credits _ = false

abbrev Unfreed : Checkpoint → Type 0
Unfreed c = is_zero_credits c.credits ≡ false

abbrev Returns : Result Problem Checkpoint → Type 0
Returns (ok c) = Unfreed c
Returns (err p) = Unit

abbrev Ends : Result Problem Checkpoint × World → Type 0
Ends p = Unfreed p.1.row × Returns p.0

-- A part of a step that frees nothing, neither in the row nor in the checkpoint that it returns.
abbrev Safe : M Checkpoint → Type 0
Safe m = (w : World) → Unfreed w.row → Ends (m w)

next-Ends :
    (p : Result Problem Checkpoint × World) (f : Checkpoint → M Checkpoint)
    → Ends p
    → ((c : Checkpoint) → Unfreed c → Safe (f c))
    → Ends (((λ (w : World). p) >>= f) p.1)
next-Ends (ok c, w) f (row, value) h = h c value w row
next-Ends (err e, w) f (row, value) h = (row, tt)

bind-Safe :
    (m : M Checkpoint) (f : Checkpoint → M Checkpoint)
    → Safe m
    → ((c : Checkpoint) → Unfreed c → Safe (f c))
    → Safe (m >>= f)
bind-Safe m f h k w n = next-Ends (m w) f (h w n) k

module _ (s : Surroundings) where
  load-Safe : (key : String) → Safe (load s key)
  unfolding load
  load-Safe key w n = ground (arith, n)

  persist-Safe : (c : Checkpoint) → Unfreed c → Safe (persist s c)
  unfolding persist save
  persist-Safe c u w n = ground (arith, u, n)

module _ (h : Host) (parse : Json → PageRequest → Result ContractError ParsedPage)
    (s : Surroundings) where
  publish-Safe :
      (c : Checkpoint) (r : Result ContractError ParsedPage)
      → Unfreed c
      → Safe (publish h parse s c r)
  unfolding publish
  publish-Safe c (ok page) u = persist-Safe s (after_parse c page) u
  publish-Safe c (err e) u = persist-Safe s (after_misparse c) u

  reconciled-Safe :
      (b : Bool) (c : Checkpoint) (r : Result ContractError ParsedPage)
      → Unfreed c
      → Safe (if b then pure c else publish h parse s c r)
  reconciled-Safe true c r u = λ w n. (n, u)
  reconciled-Safe false c r u = publish-Safe c r u

  accept-Safe :
      (m : Mode) (c : Checkpoint) (e : Envelope Json)
      → frees (answered e) ≡ false
      → Unfreed c
      → Safe (accept h parse s m c e)
  unfolding accept
  accept-Safe m c (Envelope.pending id cached) f u = persist-Safe s (after_pending c id) u
  accept-Safe m c (Envelope.failed id cached) f u = absurd (ground (arith, f))
  accept-Safe m c (Envelope.complete id zero_credits cached raw) f u = absurd (ground (arith, f))
  accept-Safe m c (Envelope.complete id one_credit cached raw) f u =
      bind-Safe (persist s (after_credits c id one_credit))
        (λ next.
          if is_reconcile m then pure next else publish h parse s next (parse raw next.request))
        (persist-Safe s (after_credits c id one_credit) refl)
        (λ next v. reconciled-Safe (is_reconcile m) next (parse raw next.request) v)

  guarded-Safe :
      (b : Bool) (p : Problem) (m : M Checkpoint) → Safe m → Safe (if b then throw p else m)
  guarded-Safe true p m k = λ w n. (n, tt)
  guarded-Safe false p m k = k

  unless-Safe :
      (b : Bool) (c : Checkpoint) (m : M Checkpoint)
      → Unfreed c
      → Safe m
      → Safe (if b then pure c else m)
  unless-Safe true c m u k = λ w n. (n, u)
  unless-Safe false c m u k = k

  settle-Safe :
      (m : Mode) (c : Checkpoint) (r : Reply)
      → frees r ≡ false
      → Unfreed c
      → Safe (settle h parse s m c r)
  unfolding settle
  settle-Safe m c (answered e) f u =
      guarded-Safe (id_conflict c.request_id (envelope_id e)) _ _
        (guarded-Safe (credit_conflict c.credits e) _ _ (accept-Safe m c e f u))
  settle-Safe m c (provider_error f d) e u =
      persist-Safe s
        (after_failure c (classify (provider_error f d)) (deadline_of s.now_after (safe_nat d))) u
  settle-Safe m c other_error e u =
      persist-Safe s (after_failure c FailureClass.result_unknown none) u

  dispatch-Safe : (id : Option String) (c : Checkpoint) → Unfreed c → Safe (dispatch h parse s id c)
  unfolding dispatch
  dispatch-Safe (some id) c u = λ w n. (n, u)
  dispatch-Safe none c u = persist-Safe s (record c { state = PageState.dispatching }) u

  module _ (quiet : frees s.reply ≡ false) where
    exchange-Safe :
        (m : Mode) (c : Checkpoint) (key : String) → Unfreed c → Safe (exchange h parse s m c key)
    unfolding exchange call_provider
    exchange-Safe m c key u =
        bind-Safe (dispatch h parse s c.request_id c)
          (λ ready. call_provider s ready key >>= settle h parse s m ready)
          (dispatch-Safe c.request_id c u)
          (λ ready v w n.
            settle-Safe m ready s.reply quiet v
              (record w { log = asked ready.request_id ready.request key ∷ w.log }) n)

    permit-Safe :
        (c : Checkpoint) (key : String) (o : Option Mode)
        → Unfreed c
        → Safe (permit h parse s c key o)
    unfolding permit
    permit-Safe c key none u = λ w n. (n, tt)
    permit-Safe c key (some m) u =
        guarded-Safe (forbidden m c.request_id) _ _ (exchange-Safe m c key u)

    wait-Safe :
        (c : Checkpoint) (key : String) (o : Option Bool)
        → Unfreed c
        → Safe (wait h parse s c key o)
    unfolding wait
    wait-Safe c key none u = λ w n. (n, tt)
    wait-Safe c key (some false) u = λ w n. (n, u)
    wait-Safe c key (some true) u = permit-Safe c key (mode_of s.permission) u

    checked-Safe :
        (c : Checkpoint) (key : String) (r : Result ContractError String)
        → Unfreed c
        → Safe (checked h parse s c key r)
    unfolding checked
    checked-Safe c key (err e) u = λ w n. (n, tt)
    checked-Safe c key (ok own) u = guarded-Safe (not (str_eq own key)) _ _ (
        unless-Safe (is_terminal c.state) c _ u
          (wait-Safe c key (due c.retry_not_before s.now_before) u))

    identify-Safe : (c : Checkpoint) (key : String) → Unfreed c → Safe (identify h parse s c key)
    unfolding identify
    identify-Safe c key u = elim (Bool-cases (str_eq c.operation_key key)) [
      | inl same ↦ rw same (checked-Safe c key (operation_key h c.search_id c.request c.attempt) u)
      | inr other ↦ rw other (λ w n. (n, tt))
    ]

    -- A step on whose reply nothing is freed settles no credits as zero.
    pub advance-Unfreed :
        (key : String) (w : World)
        → is_zero_credits w.row.credits ≡ false
        → is_zero_credits (advance h parse s key w).1.row.credits ≡ false
    unfolding advance
    advance-Unfreed key w n =
        (bind-Safe (load s key) (λ c. identify h parse s c key) (load-Safe s key)
          (λ c u. identify-Safe c key u) w n).0
