-- ===== src/Help/Lease/Runs.antt =====
-- Sequences of calls of the question limiter: apps/api/src/help/engine.ts.
use hanamaru_shientool_prod.Prelude.{
  ℕ, ◌+◌, ◌≤◌, String, ◌≡◌, refl, sym, ◌∙◌, ap, subst, inl, inr, Bool, true, false, ◌&&◌, ◌||◌,
  Option, none, some, List, [], ◌∷◌, leb, ◌==◌, Result, ok, err, length, arith, Bool-cases, eq_iff,
  some-eq-some,
}
use hanamaru_shientool_prod.Prelude.Text.{str_eq}
use hanamaru_shientool_prod.Prelude.Maps.{get, get-put, get-keep}
use hanamaru_shientool_prod.Help.Lease.{
  Bucket, Windows, Refusal, max_count, max_windows, is_live, sweep, taken, grant, question_lease,
  free, release,
}

pub data Call : Type 0 where
  ask : String → ℕ → Call
  done : String → ℕ → Call

abbrev pub is_ok : {A : Type 0} → Result Refusal A → Bool
is_ok (ok a) = true
is_ok (err e) = false

abbrev pub one_if : Bool → ℕ
one_if true = 1
one_if false = 0

-- The grants for a key in a sequence of calls, and the state after it.
unfoldable pub run : String → Windows → List Call → Windows × ℕ
run k w [] = (w, 0)
run k w (ask j now ∷ cs) =
    let (w', r) = question_lease j now w in
    let (w'', n) = run k w' cs in (w'', one_if (str_eq j k && is_ok r) + n)
run k w (done j serial ∷ cs) = run k (release j serial w) cs

-- What a call for `j` leaves of the bucket `b` of `k`: the same window, one more if it granted `k`.
record After (k j : String) (b : Bucket) (x : Windows × Result Refusal ℕ) : Type 0 where
  bucket : Bucket
  found : get k x.0.entries ≡ some bucket
  same_start : bucket.start ≡ b.start
  counted : bucket.count ≡ one_if (str_eq j k && is_ok x.1) + b.count
  capped : b.count ≤ max_count → bucket.count ≤ max_count
  busy : b.pending ≡ true → (bucket.pending ≡ true) × ((str_eq j k && is_ok x.1) ≡ false)

differs :
    (k j : String) (b : Bucket) (m : List (String × Bucket))
    → get k m ≡ some b
    → get j m ≡ none
    → str_eq j k ≡ false
differs k j b m f e = elim (Bool-cases (str_eq j k)) [
  | inl same ↦ let gone : get k m ≡ none = ap (λ x. get x m) (sym ((eq_iff j k).0 same)) ∙ e in cc
  | inr other ↦ other
]

grant-After :
    (now : ℕ) (k j : String) (b : Bucket) (m : List (String × Bucket)) (w : Windows)
    (o : Option Bucket)
    → get k m ≡ some b
    → get j m ≡ o
    → After k j b (grant now j m w o)
unfolding grant
grant-After now k j b m w (some c) f e = elim (Bool-cases (c.pending || leb max_count c.count)) [
  | inl no_more ↦ rw no_more (record {
    bucket = b;
    found = f;
    same_start = refl;
    counted = ground arith;
    capped = λ h. h;
    busy = λ h. (h, ground arith);
  })
  | inr more ↦ elim (Bool-cases (str_eq j k)) [
    | inl same ↦
        let key : j ≡ k = (eq_iff j k).0 same in
        let it : c ≡ b = some-eq-some (sym e ∙ (ap (λ x. get x m) key ∙ f)) in
        rw more (record {
          bucket = taken c;
          found = get-put j k (taken c) m ∙ rw same refl;
          same_start = ap (λ x. x.start) it;
          counted = ground arith;
          capped = λ h. ground arith;
          busy = λ h. absurd (ground arith);
        })
    | inr other ↦ rw more (record {
      bucket = b;
      found = get-put j k (taken c) m ∙ rw other f;
      same_start = refl;
      counted = ground arith;
      capped = λ h. h;
      busy = λ h. (h, ground arith);
    })
  ]
]
grant-After now k j b m w none f e = elim (Bool-cases (leb max_windows (length m))) [
  | inl full ↦ rw full (record {
    bucket = b;
    found = f;
    same_start = refl;
    counted = ground arith;
    capped = λ h. h;
    busy = λ h. (h, ground arith);
  })
  | inr room ↦
      let other : str_eq j k ≡ false = differs k j b m f e in
      rw room (record {
        bucket = b;
        found = get-put j k _ m ∙ rw other f;
        same_start = refl;
        counted = ground arith;
        capped = λ h. h;
        busy = λ h. (h, ground arith);
      })
]

question_lease-After :
    (now : ℕ) (k j : String) (b : Bucket) (w : Windows)
    → get k w.entries ≡ some b
    → is_live now b ≡ true
    → After k j b (question_lease j now w)
unfolding question_lease sweep
question_lease-After now k j b w f live =
    let m = sweep now w.entries in
    grant-After now k j b m w (get j m)
      (get-keep (λ (e : String × Bucket). is_live now e.1) k b w.entries f (λ i. live)) refl

-- What a release for `j` leaves of the bucket of `k`.
record Released (k j : String) (b : Bucket) (w : Windows) : Type 0 where
  bucket : Bucket
  found : get k w.entries ≡ some bucket
  same_start : bucket.start ≡ b.start
  same_count : bucket.count ≡ b.count
  busy : str_eq j k ≡ false → bucket.pending ≡ b.pending

free-Released :
    (k j : String) (serial : ℕ) (b : Bucket) (w : Windows) (o : Option Bucket)
    → get k w.entries ≡ some b
    → get j w.entries ≡ o
    → Released k j b (record w { entries = free j serial w.entries o })
unfolding free
free-Released k j serial b w none f e = record {
  bucket = b;
  found = f;
  same_start = refl;
  same_count = refl;
  busy = λ h. refl;
}
free-Released k j serial b w (some c) f e = elim (Bool-cases (c.serial == serial)) [
  | inr gone ↦
      rw gone
        (record { bucket = b; found = f; same_start = refl; same_count = refl; busy = λ h. refl })
  | inl mine ↦ elim (Bool-cases (str_eq j k)) [
    | inl same ↦
        let key : j ≡ k = (eq_iff j k).0 same in
        let it : c ≡ b = some-eq-some (sym e ∙ (ap (λ x. get x w.entries) key ∙ f)) in
        rw mine (record {
          bucket = record c { pending = false };
          found = get-put j k (record c { pending = false }) w.entries ∙ rw same refl;
          same_start = ap (λ x. x.start) it;
          same_count = ap (λ x. x.count) it;
          busy = λ h. cc;
        })
    | inr other ↦ rw mine (record {
      bucket = b;
      found = get-put j k (record c { pending = false }) w.entries ∙ rw other f;
      same_start = refl;
      same_count = refl;
      busy = λ h. refl;
    })
  ]
]

release-Released :
    (k j : String) (serial : ℕ) (b : Bucket) (w : Windows)
    → get k w.entries ≡ some b
    → Released k j b (release j serial w)
unfolding release
release-Released k j serial b w f = free-Released k j serial b w (get j w.entries) f refl

-- The calls all come before an instant.
abbrev pub Before : ℕ → List Call → Type 0
Before t [] = Unit
Before t (ask j now ∷ cs) = (now ≤ t) × Before t cs
Before t (done j serial ∷ cs) = Before t cs

-- While a bucket's minute lasts, the questions that it counts and those granted in any sequence of
-- calls, of this and of other users, with releases in between, are ten at most.
pub run-le-ten :
    (k : String) (b : Bucket) (w : Windows) (cs : List Call)
    → get k w.entries ≡ some b
    → b.count ≤ max_count
    → Before (b.start + 60000) cs
    → (run k w cs).1 + b.count ≤ max_count
unfolding run
run-le-ten k b w [] f c t = omega arith
run-le-ten k b w (ask j now ∷ cs) f c (early, t) =
    let a = question_lease-After now k j b w f (ground arith) in
    let rest =
      run-le-ten k a.bucket (question_lease j now w).0 cs a.found (a.capped c)
        (subst (λ x. Before (x + 60000) cs) (sym a.same_start) t) in
    let counted = a.counted in omega (arith, rest, counted)
run-le-ten k b w (done j serial ∷ cs) f c t =
    let a = release-Released k j serial b w f in
    let same = a.same_count in
    let rest =
      run-le-ten k a.bucket (release j serial w) cs a.found (omega (arith, same))
        (subst (λ x. Before (x + 60000) cs) (sym a.same_start) t) in
    omega (arith, rest, same)

-- No call releases a lease of this key.
abbrev pub NoRelease : String → List Call → Type 0
NoRelease k [] = Unit
NoRelease k (ask j now ∷ cs) = NoRelease k cs
NoRelease k (done j serial ∷ cs) = (str_eq j k ≡ false) × NoRelease k cs

-- While a question of a user is being answered no further question of that user is let in, however
-- much time passes and whatever others do, until it is released.
pub run_busy :
    (k : String) (b : Bucket) (w : Windows) (cs : List Call)
    → get k w.entries ≡ some b
    → b.pending ≡ true
    → NoRelease k cs
    → (run k w cs).1 ≡ 0
unfolding run
run_busy k b w [] f p n = refl
run_busy k b w (ask j now ∷ cs) f p n =
    let a = question_lease-After now k j b w f (ground arith) in
    let (still, none_in) = a.busy p in
    let rest = run_busy k a.bucket (question_lease j now w).0 cs a.found still n in
    rw none_in (omega (arith, rest))
run_busy k b w (done j serial ∷ cs) f p (other, n) =
    let a = release-Released k j serial b w f in
    run_busy k a.bucket (release j serial w) cs a.found (a.busy other ∙ p) n
