-- ===== src/Yahoo/Registry/Unique.antt =====
-- A mapping is found only where it is the only one.
use Prim.Native.String.{String}
use mathlib.Core.List.{Memᴰ}
use hanamaru_shientool_prod.Prelude.{
  ℕ, Bool, true, some, List, [], ◌∷◌, keep, ◌≡◌, refl, sym, ap, subst, inl, inr, Bool-cases,
  some-eq-some, arith, All, All-keep, All-member, keep-All,
}
use hanamaru_shientool_prod.Prelude.Text.{is_empty}
use hanamaru_shientool_prod.Yahoo.{Web, normalize_label}
use hanamaru_shientool_prod.Yahoo.Registry.{Mapping, only, applies, resolve}

only-eq-some : {A : Type 0} (xs : List A) {a : A} → only xs ≡ some a → xs ≡ a ∷ []
only-eq-some [] e = absurd (ground arith)
only-eq-some (x ∷ []) e = ap (λ y. y ∷ []) (some-eq-some e)
only-eq-some (x ∷ (y ∷ xs)) e = absurd (ground arith)

All-passing :
    {A : Type 0} (p : A → Bool) (Q : A → Type 0) (xs : List A)
    → All Q (keep p xs)
    → All (λ x. p x ≡ true → Q x) xs
All-passing p Q [] h = tt
All-passing p Q (x ∷ xs) h = elim (Bool-cases (p x)) [
  | inl t ↦ let (q, qs) = rw t at h in ((λ u. q), All-passing p Q xs qs)
  | inr f ↦ ((λ u. absurd (ground (arith, f, u))), All-passing p Q xs (rw f at h))
]

-- A resolved mapping is one of the registry that applies: it is confirmed or compatible, has not expired
-- and has the label as its name or an alias. It is the only one: every mapping that applies is this one.
pub resolve_unique :
    (w : Web) (value : String) (ms : List Mapping) (now : ℕ) (m : Mapping)
    → resolve w (some value) ms now ≡ some m
    → Memᴰ m ms
      × (applies w (normalize_label w value) now m ≡ true)
      × All (λ x. applies w (normalize_label w value) now x ≡ true → x ≡ m) ms
unfolding resolve
resolve_unique w value ms now m e = elim (Bool-cases (is_empty value)) [
  | inl empty ↦ absurd (ground arith)
  | inr full ↦
      let p = applies w (normalize_label w value) now in
      let same = only-eq-some (keep p ms) (rw full at e) in
      (
        (subst (All (λ x. Memᴰ x ms)) same (All-keep (λ x. Memᴰ x ms) p ms (All-member ms))).0,
        (subst (All (λ x. p x ≡ true)) same (keep-All p ms)).0,
        All-passing p (λ x. x ≡ m) ms (subst (All (λ x. x ≡ m)) (sym same) (refl, tt)),
      )
]
