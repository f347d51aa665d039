-- ===== src/Yahoo/Query/Paging.antt =====
-- Pages and offsets.
use hanamaru_shientool_prod.Prelude.{ℕ, ◌+◌, ◌*◌, ◌-◌, ◌≤◌, ok, ◌≡◌, arith}
use hanamaru_shientool_prod.Yahoo.Query.{page_offset, validated_offset}

page_offset-eq-ok : (p n : ℕ) → page_offset p ≡ ok n → (1 ≤ p) × (p ≤ 20) × (n ≡ 1 + (p - 1) * 100)
unfolding page_offset
page_offset-eq-ok p n e = ground arith

validated_offset_of :
    (p : ℕ) → 1 ≤ p → p ≤ 20 → validated_offset (1 + (p - 1) * 100) ≡ ok (1 + (p - 1) * 100)
unfolding validated_offset
validated_offset_of p l u = ground arith

-- The offset of a page is one that a URL accepts, at most 1901, and no other page has it.
pub page_offset_lem :
    (p q n : ℕ)
    → page_offset p ≡ ok n
    → (validated_offset n ≡ ok n) × (n ≤ 1901) × (page_offset q ≡ ok n → p ≡ q)
page_offset_lem p q n e =
    let (low, high, v) = page_offset-eq-ok p n e in
    (
      rw v (validated_offset_of p low high),
      omega (arith, v),
      λ f. let (l, h, v') = page_offset-eq-ok q n f in omega (arith, v, v', l),
    )
