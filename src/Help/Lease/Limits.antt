-- ===== src/Help/Lease/Limits.antt =====
-- What the question limiter of apps/api/src/help/engine.ts keeps.
use hanamaru_shientool_prod.Prelude.{
  ℕ, ◌≤◌, String, ◌≡◌, refl, inl, inr, true, ◌||◌, Option, none, some, List, leb, length, All,
  arith, All-keep, length-keep, Bool-cases,
}
use hanamaru_shientool_prod.Prelude.Maps.{get, length-put, length-put_known, All-put}
use hanamaru_shientool_prod.Help.Lease.{
  Bucket, Windows, max_count, max_windows, is_live, sweep, taken, grant, question_lease,
}

-- No bucket counts more than ten, and there are ten thousand of them at most.
pub record Bounded (w : Windows) : Type 0 where
  pub counts : All (λ (e : String × Bucket). e.1.count ≤ max_count) w.entries
  pub size : length w.entries ≤ max_windows

grant-Bounded :
    (now : ℕ) (key : String) (m : List (String × Bucket)) (w : Windows) (o : Option Bucket)
    → get key m ≡ o
    → All (λ (e : String × Bucket). e.1.count ≤ max_count) m
    → length m ≤ max_windows
    → Bounded (grant now key m w o).0
unfolding grant
grant-Bounded now key m w (some b) e c s = elim (Bool-cases (b.pending || leb max_count b.count)) [
  | inl no_more ↦ rw no_more (record { counts = c; size = s })
  | inr more ↦ rw more (record {
    counts = All-put (λ x. x.count ≤ max_count) key (taken b) m (ground arith) c;
    size = omega (arith, length-put_known key (taken b) b m e);
  })
]
grant-Bounded now key m w none e c s = elim (Bool-cases (leb max_windows (length m))) [
  | inl full ↦ rw full (record { counts = c; size = s })
  | inr room ↦ rw room (record {
    counts = All-put (λ x. x.count ≤ max_count) key _ m (omega arith) c;
    size = ground (
      arith,
      length-put key (record { serial = w.next; start = now; count = 1; pending = true }) m,
    );
  })
]

-- Whatever a call finds, granted or refused, it leaves no bucket that counts more than ten questions
-- and no more than ten thousand buckets, if that was so before.
pub question_lease-Bounded :
    (key : String) (now : ℕ) (w : Windows) → Bounded w → Bounded (question_lease key now w).0
unfolding question_lease sweep
question_lease-Bounded key now w b =
    let m = sweep now w.entries in
    grant-Bounded now key m w (get key m) refl
      (All-keep (λ (e : String × Bucket). e.1.count ≤ max_count)
        (λ (e : String × Bucket). is_live now e.1) w.entries b.counts)
      (omega (arith, length-keep (λ (e : String × Bucket). is_live now e.1) w.entries, b.size))
