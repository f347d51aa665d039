-- ===== src/Soldgraph/Ledger/Lifecycle.antt =====
-- The lives of pages: packages/market-price/src/soldgraph-workflow.ts. A page is born reserved or as
-- the retry of a failed one, is advanced by steps in any surroundings, or is cancelled.
use hanamaru_shientool_prod.Prelude.{
  ℕ, ◌+◌, ◌≡◌, refl, ◌∙◌, ap, subst, ◌≢◌, ◌⊎◌, inl, inr, Bool-cases, sym, true, false, Option,
  if◌then◌else◌, none, some, arith, String, Result, ok, err,
}
use hanamaru_shientool_prod.Json.{Json}
use hanamaru_shientool_prod.Contracts.{
  PageRequest, ParsedPage, Checkpoint, Credits, one_credit, zero_credits, CreditState, PageState,
}
use hanamaru_shientool_prod.Soldgraph.Request.{
  Host, ContractError, validate_page_request, operation_key,
}
use hanamaru_shientool_prod.Soldgraph.Request.Idempotent.{Stable, validate_page_request_twice}
use hanamaru_shientool_prod.Soldgraph.Workflow.{Surroundings, World, advance}
use hanamaru_shientool_prod.Soldgraph.Workflow.Invariant.{
  Agree, WellFormed, advance-WellFormed, advance-Continues, advance-credits_final,
}
use hanamaru_shientool_prod.Soldgraph.Workflow.Frees.{frees, is_zero_credits, advance-Unfreed}
use hanamaru_shientool_prod.Soldgraph.Ledger.{
  new_checkpoint, explicit_retry, cancel_unsent, held, contract,
}

-- The key of a row is the one that its own columns give.
abbrev pub IsIdentified : Host → Checkpoint → Type 0
IsIdentified h c = operation_key h c.search_id c.request c.attempt ≡ ok c.operation_key

-- A page that has just been reserved.
record Fresh (c : Checkpoint) : Type 0 where
  request_id : c.request_id ≡ none
  credits : c.credits ≡ none
  credit_state : c.credit_state ≡ CreditState.reserved
  state : c.state ≡ PageState.reserved
  result : c.result ≡ none

Fresh-WellFormed : {c : Checkpoint} → Fresh c → WellFormed c
Fresh-WellFormed {c} f = record {
  agree = ground arith;
  state_holds = ground arith;
  published = λ page e. ground arith;
}

module _ (h : Host) where
  contract-eq-ok : {A : Type 0} (r : Result ContractError A) {a : A} → contract r ≡ ok a → r ≡ ok a
  contract-eq-ok (ok b) e = cc
  contract-eq-ok (err x) e = cc

  new_checkpoint-eq-ok :
      (sid : String) (r : PageRequest) (c : Checkpoint)
      → new_checkpoint h sid r ≡ ok c
      → (validate_page_request h r ≡ ok c.request) × IsIdentified h c × Fresh c
  unfolding new_checkpoint
  new_checkpoint-eq-ok sid r c e = ground arith

  explicit_retry-eq-ok :
      (p c : Checkpoint)
      → explicit_retry h p ≡ ok c
      → (p.state ≡ PageState.failed)
        × (p.credit_state ≡ CreditState.released)
        × (validate_page_request h p.request ≡ ok c.request)
        × (operation_key h p.search_id p.request c.attempt ≡ ok c.operation_key)
        × (c.search_id ≡ p.search_id)
        × (c.attempt ≡ p.attempt + 1)
        × Fresh c
  unfolding explicit_retry
  explicit_retry-eq-ok p c e = ground arith

  -- The key of a validated request is the key of the request that it was validated from.
  operation_key-valid :
      (sid : String) (r v : PageRequest) (n : ℕ)
      → validate_page_request h r ≡ ok v
      → validate_page_request h v ≡ ok v
      → operation_key h sid v n ≡ operation_key h sid r n
  unfolding operation_key
  operation_key-valid sid r v n e e' = rw (e, e') refl

  -- A retry is possible only of a failed page that holds nothing. It is a fresh reservation of one
  -- credit for the next attempt of the same search and request, under the key that a step will
  -- recompute for it (if NFKC is stable).
  pub explicit_retry_sound :
      (p c : Checkpoint)
      → Stable h
      → explicit_retry h p ≡ ok c
      → (p.state ≡ PageState.failed)
        × (held p ≡ 0)
        × (held c ≡ 1)
        × (c.attempt ≡ p.attempt + 1)
        × (c.search_id ≡ p.search_id)
        × IsIdentified h c
        × WellFormed c
  unfolding held
  explicit_retry_sound p c stable e =
      let (failed, free, valid, key, sid, attempt, fresh) = explicit_retry-eq-ok p c e in
      let again = (validate_page_request_twice h stable p.request c.request valid).0 in
      let named : IsIdentified h c =
        ap (λ s. operation_key h s c.request c.attempt) sid
        ∙ (operation_key-valid p.search_id p.request c.request c.attempt valid again ∙ key) in
      (
        failed,
        rw free refl,
        rw fresh.credit_state refl,
        attempt,
        sid,
        named,
        Fresh-WellFormed fresh,
      )

cancel_unsent-WellFormed : (p c : Checkpoint) → cancel_unsent p ≡ ok c → WellFormed p → WellFormed c
unfolding cancel_unsent
cancel_unsent-WellFormed p c e v = record {
  agree = ground arith;
  state_holds = ground arith;
  published = λ page q. ground (arith, v.published page);
}

cancel_unsent-columns :
    (p c : Checkpoint)
    → cancel_unsent p ≡ ok c
    → (c.operation_key ≡ p.operation_key)
      × (c.search_id ≡ p.search_id)
      × (c.request ≡ p.request)
      × (c.attempt ≡ p.attempt)
unfolding cancel_unsent
cancel_unsent-columns p c e = ground arith

-- Cancelling is possible only of a reservation that was never sent, and frees its credit: the page
-- held one credit before and holds none afterwards, under the same key.
pub cancel_unsent_sound :
    (p c : Checkpoint)
    → cancel_unsent p ≡ ok c
    → (p.state ≡ PageState.reserved)
      × (p.request_id ≡ none)
      × (held p ≡ 1)
      × (held c ≡ 0)
      × (c.operation_key ≡ p.operation_key)
      × (c.state ≡ PageState.cancelled)
unfolding cancel_unsent held
cancel_unsent_sound p c e = ground arith

-- Every page that the program can come to, through any number of steps in any surroundings.
pub data Life (h : Host) (parse : Json → PageRequest → Result ContractError ParsedPage)
    : Checkpoint → Type 0 where
  born :
      (sid : String) (r : PageRequest) {c : Checkpoint}
      → new_checkpoint h sid r ≡ ok c
      → Life h parse c
  retried : {p c : Checkpoint} → Life h parse p → explicit_retry h p ≡ ok c → Life h parse c
  advanced :
      (s : Surroundings) (key : String) (w : World) {c : Checkpoint}
      → Life h parse w.row
      → (advance h parse s key w).1.row ≡ c
      → Life h parse c
  cancelled : {p c : Checkpoint} → Life h parse p → cancel_unsent p ≡ ok c → Life h parse c

zero_of : (o : Option Credits) → is_zero_credits o ≡ true → o ≡ some zero_credits
zero_of none e = absurd (ground arith)
zero_of (some zero_credits) e = refl
zero_of (some one_credit) e = absurd (ground arith)

module _ (h : Host) (parse : Json → PageRequest → Result ContractError ParsedPage) where
  -- Every page of the program is well formed at every moment of its life.
  pub Life-WellFormed : {c : Checkpoint} → Life h parse c → WellFormed c
  Life-WellFormed (Life.born sid r {c} e) = Fresh-WellFormed (new_checkpoint-eq-ok h sid r c e).2
  Life-WellFormed (Life.retried {p} {c} l e) = Fresh-WellFormed (explicit_retry-eq-ok h p c e).6
  Life-WellFormed (Life.advanced s key w l e) =
      subst WellFormed e (advance-WellFormed h parse s key w (Life-WellFormed l))
  Life-WellFormed (Life.cancelled {p} {c} l e) = cancel_unsent-WellFormed p c e (Life-WellFormed l)

  held_cases :
      (c : Checkpoint)
      → Agree c.credits c.credit_state
      → (c.credits ≡ some zero_credits) × (held c ≡ 0)
        ⊎ (c.credits ≢ some zero_credits) × (held c ≡ 1)
  unfolding held
  held_cases c a = ground arith

  held_lem :
      (c : Checkpoint)
      → Agree c.credits c.credit_state
      → held c ≡ (if is_zero_credits c.credits then 0 else 1)
  unfolding held
  held_lem c a = ground arith

  advance-held :
      (s : Surroundings) (key : String) (w : World)
      → WellFormed w.row
      → frees s.reply ≡ false
      → held (advance h parse s key w).1.row ≡ held w.row
  advance-held s key w v quiet =
      let after = (advance h parse s key w).1.row in
      let before_lem = held_lem w.row v.agree in
      let after_lem = held_lem after (advance-WellFormed h parse s key w v).agree in
      elim (Bool-cases (is_zero_credits w.row.credits)) [
        | inr unfreed ↦
            let still = advance-Unfreed h parse s quiet key w unfreed in
            after_lem ∙ rw still (sym (before_lem ∙ rw unfreed refl))
        | inl free ↦
            let zero = zero_of w.row.credits free in
            let same = advance-credits_final h parse s key w zero_credits v zero in
            after_lem ∙ rw same.0 (sym (before_lem ∙ rw free refl))
      ]

  -- A page holds one credit of the budget at every moment of its life, unless its credits are settled
  -- as zero: then it holds none. A step leaves what it holds as it is, unless the reply of the provider
  -- is that the request failed or that it completed and cost nothing: a reply that is lost, an error, a
  -- lease that is lost or a result that cannot be parsed frees nothing.
  pub Life-held :
      (s : Surroundings) (key : String) (w : World)
      → Life h parse w.row
      → (((w.row.credits ≡ some zero_credits) × (held w.row ≡ 0))
          ⊎ ((w.row.credits ≢ some zero_credits) × (held w.row ≡ 1)))
        × ((frees s.reply ≡ true) ⊎ (held (advance h parse s key w).1.row ≡ held w.row))
  Life-held s key w l =
      let v = Life-WellFormed l in
      (
        held_cases w.row v.agree,
        elim (Bool-cases (frees s.reply)) [
          | inl said ↦ inl said
          | inr quiet ↦ inr (advance-held s key w v quiet)
        ],
      )

  module _ (stable : Stable h) where
    identified :
        (c d : Checkpoint)
        → IsIdentified h c
        → d.operation_key ≡ c.operation_key
        → d.search_id ≡ c.search_id
        → d.request ≡ c.request
        → d.attempt ≡ c.attempt
        → IsIdentified h d
    identified c d i o s r a = rw (o, s, r, a) i

    -- If NFKC is stable, the key of a page is at every moment of its life the one that its search,
    -- its request and its attempt give: the identity check of a step never fails for it.
    pub Life-IsIdentified : {c : Checkpoint} → Life h parse c → IsIdentified h c
    Life-IsIdentified (Life.born sid r {c} e) = (new_checkpoint-eq-ok h sid r c e).1
    Life-IsIdentified (Life.retried {p} {c} l e) = (explicit_retry_sound h p c stable e).5
    Life-IsIdentified (Life.advanced s key w l e) =
        let kept = advance-Continues h parse s key w in
        subst (IsIdentified h) e (
          identified w.row (advance h parse s key w).1.row (Life-IsIdentified l) kept.operation_key
            kept.search_id kept.request kept.attempt)
    Life-IsIdentified (Life.cancelled {p} {c} l e) =
        let (o, s, r, a) = cancel_unsent-columns p c e in
        identified p c (Life-IsIdentified l) o s r a
