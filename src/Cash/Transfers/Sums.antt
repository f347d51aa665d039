-- ===== src/Cash/Transfers/Sums.antt =====
-- The balance of every record of cash that is owed to a wallet, through a transfer.
use Prim.Native.String.{String}
use text.Mathlib.TextEquality.{eq_iff}
use hanamaru_shientool_prod.Prelude.{
  ℕ, ◌+◌, ◌≤◌, ◌<◌, Bool, true, false, Option, none, some, is_some, List, [], ◌∷◌, not, ◌==◌,
  if◌then◌else◌, ◌≡◌, sym, ap, ◌∙◌, subst, inl, inr, Bool-cases, some-eq-some, arith,
}
use hanamaru_shientool_prod.Prelude.Maps.{get, put}
use hanamaru_shientool_prod.Prelude.Rows.{get-update_row, on_some}
use hanamaru_shientool_prod.Prelude.Text.{str_eq}
use hanamaru_shientool_prod.Cash.{Transfer, Unreplenished, Store, Call}
use hanamaru_shientool_prod.Cash.Transfers.{
  replenishes, given_out, taken_back, next_total, settled, names,
}
use hanamaru_shientool_prod.Cash.Transfers.Balance.{Settles, Transferred}

-- A new row adds its amount to one of the two sums, if it has the property.
abbrev share : (Transfer → Bool) → Bool → Transfer → ℕ
share p reversing x = if p x then (if reversing then 0 else x.amount) else 0

given_out-put :
    (p : Transfer → Bool) (k : String) (x : Transfer) (m : List (String × Transfer))
    → get k m ≡ none
    → given_out p (put k x m) ≡ given_out p m + share p (is_some x.reverses_id) x
unfolding get put
given_out-put p k x [] e = ground arith
given_out-put p k x ((j, y) ∷ m) e = ground (arith, given_out-put p k x m)

taken_back-put :
    (p : Transfer → Bool) (k : String) (x : Transfer) (m : List (String × Transfer))
    → get k m ≡ none
    → taken_back p (put k x m) ≡ taken_back p m + share p (not (is_some x.reverses_id)) x
unfolding get put
taken_back-put p k x [] e = ground arith
taken_back-put p k x ((j, y) ∷ m) e = ground (arith, taken_back-put p k x m)

-- What was handed out for a record, less what was taken back, is at least 0 and at most its amount, and
-- a record that some amount is owed on is resolved exactly if that is the amount.
pub record Balance (f : Unreplenished) (out back : ℕ) : Type 0 where
  pub covered : back ≤ out
  pub within : out ≤ f.amount + back
  pub exact : f.resolved ≡ true → out ≡ f.amount + back
  pub short : f.resolved ≡ false → 0 < f.amount → out < f.amount + back

abbrev pub Balanced : Store → Type 0
Balanced s =
    (k : String) (f : Unreplenished)
    → get k s.unreplenished ≡ some f
    → Balance f (given_out (replenishes k) s.transfers) (taken_back (replenishes k) s.transfers)

settled-Balance :
    (f : Unreplenished) (reversing : Bool) (out back amount n : ℕ)
    → next_total reversing out back amount ≡ some n
    → n ≤ f.amount
    → Balance
        (settled (n == f.amount) f)
        (out + (if reversing then 0 else amount))
        (back + (if not reversing then 0 else amount))
settled-Balance f true out back amount n e h = record {
  covered = ground arith;
  within = ground arith;
  exact = ground arith;
  short = ground arith;
}
settled-Balance f false out back amount n e h = record {
  covered = ground arith;
  within = ground arith;
  exact = ground arith;
  short = ground arith;
}

-- The two sums for a record after the transfer.
sums_after :
    (s t : Store) (c : Call) (id k : String) (reversing : Bool) (h : Transferred s c id reversing t)
    → (given_out (replenishes k) t.transfers
        ≡ given_out (replenishes k) s.transfers + share (replenishes k) reversing h.added)
      × (taken_back (replenishes k) t.transfers
          ≡ taken_back (replenishes k) s.transfers + share (replenishes k) (not reversing) h.added)
sums_after s t c id k reversing h = (
  ap (given_out (replenishes k)) h.transfers
      ∙ given_out-put (replenishes k) c.new_id h.added s.transfers h.unused
      ∙ ap (λ z. given_out (replenishes k) s.transfers + share (replenishes k) z h.added) h.kind,
  ap (taken_back (replenishes k)) h.transfers
      ∙ taken_back-put (replenishes k) c.new_id h.added s.transfers h.unused
      ∙ ap (λ z. taken_back (replenishes k) s.transfers + share (replenishes k) (not z) h.added)
          h.kind,
)

unchanged-Balance :
    (f : Unreplenished) {out back : ℕ} → Balance f out back → Balance f (out + 0) (back + 0)
unchanged-Balance f b = record {
  covered = omega (arith, b.covered);
  within = omega (arith, b.within);
  exact = λ e. omega (arith, b.exact e);
  short = λ e h. omega (arith, b.short e h);
}

-- The balance of the record `k` after a transfer of `x` for the record `o`.
Balance-after :
    (s t : Store) (o : Option String) (reversing : Bool) (x : ℕ) (k : String)
    → Settles s t o reversing x
    → Balanced s
    → (f : Unreplenished) → get k t.unreplenished ≡ some f
    → Balance f
        (given_out (replenishes k) s.transfers
          + (if names k o then (if reversing then 0 else x) else 0))
        (taken_back (replenishes k) s.transfers
          + (if names k o then (if not reversing then 0 else x) else 0))
Balance-after s t none reversing x k h all f g =
    let b = all k f (ap (get k) (sym h) ∙ g) in unchanged-Balance f b
Balance-after s t (some j) reversing x k h all f g = elim (Bool-cases (str_eq j k)) [
  | inr other ↦
      let old : get k s.unreplenished ≡ some f =
        sym (rw other at (get-update_row j k (settled (h.total == h.owed.amount)) s.unreplenished))
        ∙ ap (get k) (sym h.after)
        ∙ g in
      let b = all k f old in rw other (unchanged-Balance f b)
  | inl here ↦
      let one : j ≡ k = (eq_iff j k).0 here in
      let new : some (settled (h.total == h.owed.amount) h.owed) ≡ some f =
        sym (
          rw here at (get-update_row j k (settled (h.total == h.owed.amount)) s.unreplenished)
          ∙ ap (on_some (settled (h.total == h.owed.amount)))
              (ap (λ z. get z s.unreplenished) (sym one) ∙ h.found))
        ∙ ap (get k) (sym h.after)
        ∙ g in
      let b =
        settled-Balance h.owed reversing _ _ x h.total
          (subst
            (λ z.
              next_total reversing (given_out (replenishes z) s.transfers)
                (taken_back (replenishes z) s.transfers) x
              ≡ some h.total)
            one h.counted)
          h.fits in
      rw here (
        subst
          (λ z.
            Balance z (given_out (replenishes k) s.transfers + (if reversing then 0 else x))
              (taken_back (replenishes k) s.transfers + (if not reversing then 0 else x)))
          (some-eq-some new) b)
]

-- A transfer keeps the balances.
pub Transferred-Balanced :
    (s t : Store) (c : Call) (id : String) (reversing : Bool)
    → Transferred s c id reversing t
    → Balanced s
    → Balanced t
Transferred-Balanced s t c id reversing h all k f g =
    let sums = sums_after s t c id k reversing h in
    rw (sums.0, sums.1)
      (Balance-after s t h.added.unreplenished_id reversing h.added.amount k h.settles all f g)
