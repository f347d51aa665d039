-- ===== src/Soldgraph/Workflow/Progress.antt =====
-- What a step of packages/market-price/src/soldgraph-workflow.ts achieves when nothing is in its way.
use hanamaru_shientool_prod.Prelude.{
  ℕ, suc, ◌+◌, ◌<◌, ◌≡◌, refl, sym, ◌∙◌, ap, Bool, true, false, none, some, subst, List, ◌∷◌,
  Result, ok, arith, String, eq_refl, eq_iff,
}
use hanamaru_shientool_prod.Json.{Json, safe_limit}
use hanamaru_shientool_prod.Contracts.{
  PageRequest, ParsedPage, Checkpoint, Envelope, Credits, PageState, CreditState, one_credit,
  zero_credits,
}
use hanamaru_shientool_prod.Contracts.Equality.{request_eq_refl}
use hanamaru_shientool_prod.Soldgraph.Request.{Host, ContractError, operation_key}
use hanamaru_shientool_prod.Soldgraph.Workflow.{
  Problem, enabled, mode, answered, Surroundings, World, Event, saved, submitted, asked, M, ◌>>=◌,
  row_matches, bump, updated, load, save, persist, due, is_terminal, mode_of, id_conflict,
  credit_conflict, settled_state, call_provider, publish, accept, settle, dispatch, exchange,
  permit, wait, checked, identify, advance, after_credits, after_parse,
}

module _ (s : Surroundings) (holds : (n : ℕ) → s.leased n ≡ true) where
  -- With the lease, a save of the next version of the present row goes through.
  abbrev written : Checkpoint → World → World
  written c w = record { row = bump c; calls = w.calls + 1; log = saved (bump c) ∷ w.log }

  persist_ok :
      (c d : Checkpoint) (w : World)
      → w.row ≡ c
      → updated c (bump d) ≡ bump d
      → d.version ≡ c.version
      → suc c.version < safe_limit
      → persist s d w ≡ (ok (bump d), written d w)
  unfolding persist save
  persist_ok c d w e same v room =
      let key : w.row.operation_key ≡ d.operation_key =
        ap (λ x. x.operation_key) e ∙ ap (λ x. x.operation_key) same in
      let search : w.row.search_id ≡ d.search_id =
        ap (λ x. x.search_id) e ∙ ap (λ x. x.search_id) same in
      let attempt : w.row.attempt ≡ d.attempt = ap (λ x. x.attempt) e ∙ ap (λ x. x.attempt) same in
      let request : w.row.request ≡ d.request = ap (λ x. x.request) e ∙ ap (λ x. x.request) same in
      let version : w.row.version ≡ d.version = ap (λ x. x.version) e ∙ sym v in
      let matches : row_matches w.row (bump d) d.version ≡ true = ground (
        arith,
        eq_iff w.row.operation_key d.operation_key,
        eq_iff w.row.search_id d.search_id,
        request_eq_refl d.request,
      ) in
      let row : updated w.row (bump d) ≡ bump d = ap (λ x. updated x (bump d)) e ∙ same in
      ground (arith, holds w.calls)

bind_ok :
    {A B : Type 0} (m : M A) (f : A → M B) (w : World) {a : A} {w' : World}
    → m w ≡ (ok a, w')
    → (m >>= f) w ≡ f a w'
bind_ok m f w e = ap (λ x. ((λ _. x) >>= f) w) e

-- One credit is charged, and with none the reservation is released.
abbrev pub state_of : Credits → CreditState
state_of one_credit = CreditState.charged
state_of zero_credits = CreditState.released

state_of_lem : (k : Credits) → settled_state k ≡ state_of k
state_of_lem one_credit = refl
state_of_lem zero_credits = refl

-- The three checkpoints that a step saves when a new request completes at once: each is the page with
-- these columns changed.
abbrev pub sending : Checkpoint → Checkpoint
sending c = record c { state = PageState.dispatching; version = c.version + 1 }

abbrev pub paid : Checkpoint → String → Credits → CreditState → Checkpoint
paid c id k credit_state = record c {
  state = PageState.dispatching;
  request_id = some id;
  credits = some k;
  credit_state = credit_state;
  version = c.version + 1 + 1;
}

abbrev pub published : Checkpoint → String → Credits → CreditState → ParsedPage → Checkpoint
published c id k credit_state page = record c {
  state = PageState.complete;
  request_id = some id;
  credits = some k;
  credit_state = credit_state;
  failure_class = none;
  retry_not_before = none;
  result = some page;
  version = c.version + 1 + 1 + 1;
}

-- What the step logged by then: the last entry first.
abbrev pub trail :
    Checkpoint → String → String → Credits → CreditState → ParsedPage → List Event → List Event
trail c id key k credit_state page log =
    saved (published c id k credit_state page)
    ∷ (saved (paid c id k credit_state) ∷ (submitted c.request key ∷ (saved (sending c) ∷ log)))

-- The page that is returned, and the world that is left after three saves.
abbrev pub outcome :
    Checkpoint
    → String
    → String
    → Credits
    → CreditState
    → ParsedPage
    → World
    → Result Problem Checkpoint × World
outcome c id key k credit_state page w = (
  ok (published c id k credit_state page),
  record {
    row = published c id k credit_state page;
    calls = w.calls + 1 + 1 + 1;
    log = trail c id key k credit_state page w.log;
  },
)

module _ (h : Host) (parse : Json → PageRequest → Result ContractError ParsedPage)
    (s : Surroundings) (holds : (n : ℕ) → s.leased n ≡ true) (c : Checkpoint) (id key : String)
    (k : Credits) (cached : Bool) (raw : Json) (page : ParsedPage)
    (room : c.version + 3 < safe_limit) (parsed : parse raw c.request ≡ ok page)
    (reply : s.reply ≡ answered (Envelope.complete id k cached raw)) where
  accept_ok :
      (w : World)
      → w.row ≡ sending c
      → accept h parse s enabled (sending c) (Envelope.complete id k cached raw) w ≡ (
        ok (published c id k (settled_state k) page),
        written s holds
            (after_parse (paid c id k (settled_state k)) page)
            (written s holds (after_credits (sending c) id k) w),
      )
  unfolding accept publish
  accept_ok w e =
      bind_ok (persist s (after_credits (sending c) id k))
        (λ next. publish h parse s next (parse raw next.request)) w
        (persist_ok s holds (sending c) (after_credits (sending c) id k) w e refl refl
          (omega arith))
      ∙ rw parsed (
          persist_ok s holds (paid c id k (settled_state k))
            (after_parse (paid c id k (settled_state k)) page)
            (written s holds (after_credits (sending c) id k) w) refl refl refl (omega arith))

  settle_ok :
      (w : World)
      → w.row ≡ sending c
      → c.request_id ≡ none
      → c.credits ≡ none
      → settle h parse s enabled (sending c) s.reply w ≡ (
        ok (published c id k (settled_state k) page),
        written s holds
            (after_parse (paid c id k (settled_state k)) page)
            (written s holds (after_credits (sending c) id k) w),
      )
  unfolding settle
  settle_ok w e i q =
      let known : id_conflict c.request_id id ≡ false = ap (λ r. id_conflict r id) i in
      let fresh : credit_conflict c.credits (Envelope.complete id k cached raw) ≡ false =
        ap (λ r. credit_conflict r (Envelope.complete id k cached raw)) q in
      ap (λ r. settle h parse s enabled (sending c) r w) reply
      ∙ (rw known (rw fresh (accept_ok w e)))

  asked_ok :
      (w : World)
      → w.row ≡ sending c
      → c.request_id ≡ none
      → c.credits ≡ none
      → (call_provider s (sending c) key >>= settle h parse s enabled (sending c)) w ≡ (
        ok (published c id k (settled_state k) page),
        written s holds (after_parse (paid c id k (settled_state k)) page) (
            written s holds
              (after_credits (sending c) id k)
              (record w { log = submitted c.request key ∷ w.log })),
      )
  unfolding call_provider
  asked_ok w e i q =
      ap
        (λ r.
          settle h parse s enabled (sending c) s.reply
            (record w { log = asked r c.request key ∷ w.log }))
        i
      ∙ settle_ok (record w { log = submitted c.request key ∷ w.log }) e i q

  dispatch_ok :
      (w : World)
      → w.row ≡ c
      → c.request_id ≡ none
      → c.credits ≡ none
      → (dispatch h parse s none c >>= λ ready.
            call_provider s ready key >>= settle h parse s enabled ready)
          w
        ≡ outcome c id key k (settled_state k) page w
  unfolding dispatch
  dispatch_ok w e i q =
      bind_ok (persist s (record c { state = PageState.dispatching }))
        (λ ready. call_provider s ready key >>= settle h parse s enabled ready) w
        (persist_ok s holds c (record c { state = PageState.dispatching }) w e refl refl
          (omega arith))
      ∙ asked_ok (written s holds (record c { state = PageState.dispatching }) w) refl i q

  exchange_ok :
      (w : World)
      → w.row ≡ c
      → c.request_id ≡ none
      → c.credits ≡ none
      → exchange h parse s enabled c key w ≡ outcome c id key k (settled_state k) page w
  unfolding exchange
  exchange_ok w e i q =
      ap
        (λ r.
          (dispatch h parse s r c >>= λ ready.
          call_provider s ready key >>= settle h parse s enabled ready)
            w)
        i
      ∙ dispatch_ok w e i q

  load_ok :
      (w : World)
      → w.row ≡ c
      → c.operation_key ≡ key
      → load s key w ≡ (ok c, record w { calls = w.calls + 1 })
  unfolding load
  load_ok w e o =
      let same : w.row.operation_key ≡ key = ap (λ x. x.operation_key) e ∙ o in
      let bound : w.row.version + 3 < safe_limit = rw e room in
      ground (arith, holds w.calls, eq_iff w.row.operation_key key)

  -- Where the lease holds throughout, the row is the operation's own and open, its version is more
  -- than three under 2 ^ 53, no retry is waited for, no request has been sent, the mode is `enabled`, and the
  -- provider completes at once with credits `k` and a result that parses: the step returns the page as
  -- complete, with the request ID and the credits of the reply, charged for one credit and released for
  -- none, and the parsed result. The row is that page, and the step saved the dispatch, submitted once,
  -- saved the credits, and only then the result.
  pub advance-publishes :
      (w : World)
      → w.row ≡ c
      → c.operation_key ≡ key
      → operation_key h c.search_id c.request c.attempt ≡ ok key
      → is_terminal c.state ≡ false
      → c.retry_not_before ≡ none
      → c.request_id ≡ none
      → c.credits ≡ none
      → s.permission ≡ mode enabled
      → advance h parse s key w
        ≡ outcome c id key k (state_of k) page (record w { calls = w.calls + 1 })
  unfolding advance identify checked wait permit
  advance-publishes w e o own t d i q m =
      let next = record w { calls = w.calls + 1 } in
      subst (λ z. advance h parse s key w ≡ outcome c id key k z page next) (state_of_lem k)
        (bind_ok (load s key) (λ x. identify h parse s x key) w (load_ok w e o)
          ∙ rw ((eq_iff c.operation_key key).1 o, own, eq_refl key)
              (rw (t, ap (λ x. due x s.now_before) d)
                (ap (λ p. permit h parse s c key (mode_of p) next) m ∙ exchange_ok next e i q)))
