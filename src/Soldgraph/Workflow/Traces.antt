-- ===== src/Soldgraph/Workflow/Traces.antt =====
-- What a step does to the outside, in which order: packages/market-price/src/soldgraph-workflow.ts.
use hanamaru_shientool_prod.Prelude.{
  ℕ, suc, ◌+◌, ◌≤◌, ◌≡◌, refl, ap, subst, eq_iff, ◌∙◌, inl, inr, Bool, true, false, Option, none,
  some, List, [], ◌∷◌, Result, ok, err, arith, String, Bool-cases, if◌then◌else◌,
}
use hanamaru_shientool_prod.Prelude.Text.{str_eq}
use hanamaru_shientool_prod.Json.{Json}
use hanamaru_shientool_prod.Contracts.{PageRequest, ParsedPage, Checkpoint, Envelope, PageState}
use hanamaru_shientool_prod.Soldgraph.Request.{Host, ContractError, operation_key}
use hanamaru_shientool_prod.Soldgraph.Workflow.{
  Problem, Mode, Reply, answered, provider_error, other_error, Surroundings, World, Event, saved,
  submitted, polled, asked, ◌>>=◌, pure, bump, is_terminal, save, persist, load, publish, accept,
  call_provider, dispatch, settle, exchange, permit, wait, checked, identify, advance, is_reconcile,
  id_conflict, credit_conflict, envelope_id, forbidden, mode_of, due,
}

-- The calls of the provider in a log.
abbrev pub asks : List Event → ℕ
asks [] = 0
asks (saved c ∷ log) = asks log
asks (submitted r key ∷ log) = suc (asks log)
asks (polled id ∷ log) = suc (asks log)

-- The save just before a submission: the row of that request, under that key, being dispatched.
abbrev pub DispatchSaved : PageRequest → String → List Event → Type 0
DispatchSaved r key (saved c ∷ log) =
    (c.state ≡ PageState.dispatching) × (c.request ≡ r) × (c.operation_key ≡ key)
DispatchSaved r key _ = ⊥

abbrev pub WriteAhead : List Event → Type 0
WriteAhead [] = Unit
WriteAhead (submitted r key ∷ log) = DispatchSaved r key log × WriteAhead log
WriteAhead (_ ∷ log) = WriteAhead log

-- A computation that only saves.
abbrev SavesOnly : {A : Type 0} → List Event → Result Problem A × World → Type 0
SavesOnly log (r, w) = (asks w.log ≡ asks log) × (WriteAhead log → WriteAhead w.log)

module _ (s : Surroundings) where
  save-SavesOnly :
      (n : Checkpoint) (expected : ℕ) (w : World) → SavesOnly w.log (save s n expected w)
  unfolding save
  save-SavesOnly n expected w = ground arith

  persist-SavesOnly : (c : Checkpoint) (w : World) → SavesOnly w.log (persist s c w)
  unfolding persist
  persist-SavesOnly c w = ground (arith, save-SavesOnly (bump c) c.version w)

  -- A save that went well is the newest entry.
  abbrev Logged : Checkpoint → List Event → Result Problem Checkpoint × World → Type 0
  Logged c log (ok n, w) = (n ≡ bump c) × (w.log ≡ saved (bump c) ∷ log)
  Logged c log (err p, w) = w.log ≡ log

  persist-Logged : (c : Checkpoint) (w : World) → Logged c w.log (persist s c w)
  unfolding persist save
  persist-Logged c w = ground arith

-- One call of the provider at most, and no submission but behind its save.
abbrev pub OneCall : List Event → Result Problem Checkpoint × World → Type 0
OneCall log (r, w) = (asks w.log ≤ asks log + 1) × (WriteAhead log → WriteAhead w.log)

asked_lem :
    (id : Option String) (r : PageRequest) (key : String) (log : List Event)
    → (id ≡ none → DispatchSaved r key log)
    → (asks (asked id r key ∷ log) ≡ suc (asks log))
      × (WriteAhead log → WriteAhead (asked id r key ∷ log))
asked_lem none r key log before = (refl, λ a. (before refl, a))
asked_lem (some id) r key log before = (refl, λ a. a)

load-log : (s : Surroundings) (key : String) (w : World) → (load s key w).1.log ≡ w.log
unfolding load
load-log s key w = ground arith

module _ (h : Host) (parse : Json → PageRequest → Result ContractError ParsedPage)
    (s : Surroundings) where
  publish-SavesOnly :
      (c : Checkpoint) (r : Result ContractError ParsedPage) (w : World)
      → SavesOnly w.log (publish h parse s c r w)
  unfolding publish
  publish-SavesOnly c (ok page) w = persist-SavesOnly s _ w
  publish-SavesOnly c (err e) w = persist-SavesOnly s _ w

  resume-SavesOnly :
      (b : Bool) (log : List Event) (raw : Json) (x : Result Problem Checkpoint × World)
      → SavesOnly log x
      → SavesOnly log
          (((λ _. x) >>= λ c. if b then pure c else publish h parse s c (parse raw c.request)) x.1)
  resume-SavesOnly b log raw (err p, w) q = q
  resume-SavesOnly true log raw (ok c, w) q = q
  resume-SavesOnly false log raw (ok c, w) q =
      let q' = publish-SavesOnly c (parse raw c.request) w in (q'.0 ∙ q.0, λ a. q'.1 (q.1 a))

  accept-SavesOnly :
      (m : Mode) (c : Checkpoint) (e : Envelope Json) (w : World)
      → SavesOnly w.log (accept h parse s m c e w)
  unfolding accept
  accept-SavesOnly m c (Envelope.pending id b) w = persist-SavesOnly s _ w
  accept-SavesOnly m c (Envelope.failed id b) w = persist-SavesOnly s _ w
  accept-SavesOnly m c (Envelope.complete id k b raw) w =
      resume-SavesOnly (is_reconcile m) w.log raw (persist s _ w) (persist-SavesOnly s _ w)

  settle-SavesOnly :
      (m : Mode) (c : Checkpoint) (r : Reply) (w : World)
      → SavesOnly w.log (settle h parse s m c r w)
  unfolding settle
  settle-SavesOnly m c (answered e) w =
      elim (Bool-cases (id_conflict c.request_id (envelope_id e))) [
        | inl bad ↦ rw bad (refl, λ a. a)
        | inr same ↦ rw same (elim (Bool-cases (credit_conflict c.credits e)) [
          | inl bad ↦ rw bad (refl, λ a. a)
          | inr agree ↦ rw agree (accept-SavesOnly m c e w)
        ])
      ]
  settle-SavesOnly m c (provider_error f d) w = persist-SavesOnly s _ w
  settle-SavesOnly m c other_error w = persist-SavesOnly s _ w

  -- The call of the provider, of a row whose dispatch was saved unless its request ID is known.
  call-OneCall :
      (m : Mode) (c : Checkpoint) (key : String) (w : World)
      → (c.request_id ≡ none → DispatchSaved c.request key w.log)
      → OneCall w.log ((call_provider s c key >>= settle h parse s m c) w)
  unfolding call_provider
  call-OneCall m c key w before =
      let q =
        settle-SavesOnly m c s.reply
          (record w { log = asked c.request_id c.request key ∷ w.log }) in
      let (one, ahead) = asked_lem c.request_id c.request key w.log before in
      (omega (arith, q.0, one), λ a. q.1 (ahead a))

  dispatched-OneCall :
      (m : Mode) (c : Checkpoint) (key : String) (w : World) (x : Result Problem Checkpoint × World)
      → c.operation_key ≡ key
      → Logged s (record c { state = PageState.dispatching }) w.log x
      → OneCall w.log
          (((λ _. x) >>= λ ready. call_provider s ready key >>= settle h parse s m ready) w)
  dispatched-OneCall m c key w (err p, w') e l = rw l (omega arith, λ a. a)
  dispatched-OneCall m c key w (ok n, w') e (same, l) =
      let before : DispatchSaved n.request key w'.log = rw (same, l) (refl, refl, e) in
      let (one, ahead) = call-OneCall m n key w' (λ _. before) in
      let counted : asks w'.log ≡ asks w.log = ap asks l in (omega arith, λ a. ahead (rw l a))

  dispatch-OneCall :
      (m : Mode) (id : Option String) (c : Checkpoint) (key : String) (w : World)
      → c.request_id ≡ id
      → c.operation_key ≡ key
      → OneCall w.log (
          (dispatch h parse s id c >>= λ ready.
          call_provider s ready key >>= settle h parse s m ready)
            w)
  unfolding dispatch
  dispatch-OneCall m (some id) c key w i e = call-OneCall m c key w (λ n. cc)
  dispatch-OneCall m none c key w i e =
      dispatched-OneCall m c key w (persist s (record c { state = PageState.dispatching }) w) e
        (persist-Logged s (record c { state = PageState.dispatching }) w)

  exchange-OneCall :
      (m : Mode) (c : Checkpoint) (key : String) (w : World)
      → c.operation_key ≡ key
      → OneCall w.log (exchange h parse s m c key w)
  unfolding exchange
  exchange-OneCall m c key w e = dispatch-OneCall m c.request_id c key w refl e

  permit-OneCall :
      (m : Option Mode) (c : Checkpoint) (key : String) (w : World)
      → c.operation_key ≡ key
      → OneCall w.log (permit h parse s c key m w)
  unfolding permit
  permit-OneCall none c key w e = (omega arith, λ a. a)
  permit-OneCall (some m) c key w e = elim (Bool-cases (forbidden m c.request_id)) [
    | inl no_entry ↦ rw no_entry (omega arith, λ a. a)
    | inr free ↦ rw free (exchange-OneCall m c key w e)
  ]

  wait-OneCall :
      (b : Option Bool) (c : Checkpoint) (key : String) (w : World)
      → c.operation_key ≡ key
      → OneCall w.log (wait h parse s c key b w)
  unfolding wait
  wait-OneCall none c key w e = (omega arith, λ a. a)
  wait-OneCall (some false) c key w e = (omega arith, λ a. a)
  wait-OneCall (some true) c key w e = permit-OneCall (mode_of s.permission) c key w e

  checked-OneCall :
      (r : Result ContractError String) (c : Checkpoint) (key : String) (w : World)
      → c.operation_key ≡ key
      → OneCall w.log (checked h parse s c key r w)
  unfolding checked
  checked-OneCall (err x) c key w e = (omega arith, λ a. a)
  checked-OneCall (ok own) c key w e = elim (Bool-cases (str_eq own key)) [
    | inr other ↦ rw other (omega arith, λ a. a)
    | inl same ↦ rw same (elim (Bool-cases (is_terminal c.state)) [
      | inl over ↦ rw over (omega arith, λ a. a)
      | inr open_ ↦ rw open_ (wait-OneCall (due c.retry_not_before s.now_before) c key w e)
    ])
  ]

  identify-OneCall :
      (c : Checkpoint) (key : String) (w : World) → OneCall w.log (identify h parse s c key w)
  unfolding identify
  identify-OneCall c key w = elim (Bool-cases (str_eq c.operation_key key)) [
    | inr other ↦ rw other (omega arith, λ a. a)
    | inl same ↦ rw same (
        checked-OneCall (operation_key h c.search_id c.request c.attempt) c key w
          ((eq_iff c.operation_key key).0 same))
  ]

  loaded-OneCall :
      (log : List Event) (key : String) (x : Result Problem Checkpoint × World)
      → x.1.log ≡ log
      → OneCall log (((λ _. x) >>= λ c. identify h parse s c key) x.1)
  loaded-OneCall log key (err p, w) e = rw e (omega arith, λ a. a)
  loaded-OneCall log key (ok c, w) e =
      subst (λ l. OneCall l (identify h parse s c key w)) e (identify-OneCall c key w)

  -- A step calls the provider once at most, on every path. If in the log of before each submission
  -- of a request stands directly behind the save of that request's row, under the same operation
  -- key, in state `dispatching`, then so it does in the log of after: no submission goes out
  -- unless its dispatch has been saved.
  pub advance-OneCall : (key : String) (w : World) → OneCall w.log (advance h parse s key w)
  unfolding advance
  advance-OneCall key w = loaded-OneCall w.log key (load s key w) (load-log s key w)
