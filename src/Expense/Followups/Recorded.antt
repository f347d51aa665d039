-- ===== src/Expense/Followups/Recorded.antt =====
-- What a follow-up that is recorded is known to be.
use Prim.Native.String.{String}
use hanamaru_shientool_prod.Prelude.{
  ℕ, Bool, true, false, not, ◌&&◌, ◌||◌, Option, none, some, is_some, Result, ok, err, ◌≡◌, refl,
  subst, arith,
}
use hanamaru_shientool_prod.Prelude.Maps.{get}
use hanamaru_shientool_prod.Json.{Json}
use hanamaru_shientool_prod.Expense.{
  Problem, Context, Item, Store, require, or_missing, text_field, amount_field, is_uuid, access,
  check_enabled, ◌>>=◌, invalid, denied, not_found,
}
use hanamaru_shientool_prod.Expense.Items.Changes.{bind-Always, ok_injective}
use hanamaru_shientool_prod.Expense.Followups.{
  Kind, Followup, Input, kind_of, optional_amount, is_report, is_correction, is_missing,
  amount_fits, reported_of, target_of, proposed_of, before_of, only_for, in_day, add_followup,
}

-- A row that may be recorded: an amount where the kind needs one and none in a report, a reported
-- instant in a report only; a correction has a target, the amount and the version of the target before,
-- and a proposed amount.
pub record Recorded (f : Followup) : Type 0 where
  pub amount : amount_fits f.kind f.amount ≡ true
  pub instant : is_report f.kind ≡ false → f.reported_at ≡ none
  pub correction :
      is_correction f.kind ≡ true
      → (is_some f.target_item_id ≡ true)
        × (is_some f.proposed_before ≡ true)
        × (is_some f.proposed_after ≡ true)

require-true : (b : Bool) (p : Problem) (u : Unit {0}) → require b p ≡ ok u → b ≡ true
require-true true p u e = refl
require-true false p u e = absurd (ground arith)

by_amount :
    (x : Result Problem ℕ) (o : Option ℕ) → (x >>= λ n. ok (some n)) ≡ ok o → is_some o ≡ true
by_amount (ok n) o e = ground arith
by_amount (err p) o e = absurd (ground arith)

module _ (reported : String → Option String) where
  reported_none :
      (k : Kind) (v : Json) (o : Option String)
      → reported_of reported k v ≡ ok o
      → is_report k ≡ false
      → o ≡ none
  reported_none k v o e f = ground arith

  in_day_some :
      (id : String) (i : Option Item) (o : Option (ℕ × ℕ))
      → in_day reported id i ≡ ok o
      → is_some o ≡ true
  in_day_some id none o e = absurd (ground arith)
  in_day_some id (some i) o e = ground arith

  before_some :
      (s : Store) (id : String) (t : Option String) (o : Option (ℕ × ℕ))
      → before_of reported s id t ≡ ok o
      → is_some t ≡ true
      → is_some o ≡ true
  before_some s id none o e h = absurd (ground arith)
  before_some s id (some t) o e h = in_day_some id (get t s.items) o e

  proposed_some :
      (k : Kind) (v : Json) (o : Option ℕ)
      → proposed_of reported k v ≡ ok o
      → is_correction k ≡ true
      → is_some o ≡ true
  proposed_some k v o e h = by_amount (amount_field v false) o (rw h at e)

  target_some :
      (k : Kind) (t : Option String)
      → not (is_correction k && not (is_some t)) ≡ true
      → is_correction k ≡ true
      → is_some t ≡ true
  target_some k t e h = ground arith

  only_for-true :
      {A : Type 0} (b : Bool) (o : Option A)
      → b ≡ true
      → is_some o ≡ true
      → is_some (only_for reported b o) ≡ true
  only_for-true true o e h = h
  only_for-true false o e h = absurd (ground arith)

  -- A follow-up is recorded only as its kind allows: with an amount for a request, an unreplenished sum
  -- or a discrepancy and without one in a report, with a reported instant only in a report, and a
  -- correction only with a target of the day, its amount and version before, and the proposed amount.
  pub add_followup-Recorded :
      (s : Store) (ctx : Context) (id : String) (b : Input) (f : Followup)
      → add_followup reported s ctx id b ≡ ok f
      → Recorded f
  unfolding add_followup
  add_followup-Recorded s ctx id b f e =
      bind-Always Recorded (kind_of b.kind) _
        (λ k hk. bind-Always Recorded (text_field b.reason 1000) _ (λ reason h.
          bind-Always Recorded (optional_amount b.amount) _ (λ amount ha.
            bind-Always Recorded (require (amount_fits k amount) invalid) _ (λ u1 fits.
              bind-Always Recorded (require (is_report k || is_missing b.reported_at) invalid) _
                (λ u2 h. bind-Always Recorded (reported_of reported k b.reported_at) _ (λ at hr.
                  bind-Always Recorded (target_of reported b.target_item_id) _ (λ target ht.
                    bind-Always Recorded
                      (require (not (is_correction k && not (is_some target))) invalid) _
                      (λ u3 hc.
                        bind-Always Recorded (proposed_of reported k b.proposed_amount) _
                          (λ proposed hp. bind-Always Recorded (check_enabled s) _ (λ u4 h.
                            bind-Always Recorded (require (is_uuid id) not_found) _ (λ u5 h.
                              bind-Always Recorded (or_missing (get id s.days)) _ (λ day h.
                                bind-Always Recorded (access ctx day) _ (λ own h.
                                  bind-Always Recorded (require own denied) _ (λ u6 h.
                                    bind-Always Recorded (before_of reported s id target) _
                                      (λ before hb. λ row same.
                                        subst Recorded (ok_injective same) (record {
                                          amount =
                                              require-true (amount_fits k amount) invalid u1 fits;
                                          instant = reported_none k b.reported_at at hr;
                                          correction = λ c.
                                              let t =
                                                target_some k target (require-true _ invalid u3 hc)
                                                  c in
                                              (
                                                t,
                                                only_for-true (is_correction k) before c
                                                    (before_some s id target before hb t),
                                                proposed_some k b.proposed_amount proposed hp c,
                                              );
                                        }))))))))))))))))
        f e
