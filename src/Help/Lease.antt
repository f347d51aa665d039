-- ===== src/Help/Lease.antt =====
-- The question limiter: apps/api/src/help/engine.ts, `questionLease`. The Map `windows` holds bucket
-- objects, and the release that a lease returns writes to its own bucket object. A bucket carries a
-- serial number for its identity, so that a release reaches the map only while that very object is in
-- it. Times are in milliseconds; `now - start` is negative where the clock went back, which the
-- subtraction of natural numbers shows as 0, on the same side of 60000.
pub mod Limits
pub mod Runs
use hanamaru_shientool_prod.Prelude.{
  ℕ, ◌+◌, ◌-◌, String, Bool, true, false, not, ◌&&◌, ◌||◌, Option, none, some, List, [], ◌∷◌, ltb,
  leb, ◌==◌, if◌then◌else◌, Result, ok, err, length, keep,
}
use hanamaru_shientool_prod.Prelude.Maps.{get, put}

pub record Bucket : Type 0 where
  pub serial : ℕ
  pub start : ℕ
  pub count : ℕ
  pub pending : Bool

pub record Windows : Type 0 where
  pub entries : List (String × Bucket)
  pub next : ℕ

-- The two refusals, both with status 429.
pub data Refusal : Type 0 where
  too_many crowded : Refusal

abbrev pub max_count : ℕ
max_count = 10

abbrev pub max_windows : ℕ
max_windows = 10000

abbrev pub is_live : ℕ → Bucket → Bool
is_live now b = not (ltb 60000 (now - b.start) && not b.pending)

-- The loop that deletes what is over.
unfoldable pub sweep : ℕ → List (String × Bucket) → List (String × Bucket)
sweep now m = keep (λ (e : String × Bucket). is_live now e.1) m

abbrev pub taken : Bucket → Bucket
taken b = record b { count = b.count + 1; pending = true }

-- `windows.set(key, bucket)` for the bucket that was found, or for a new one.
grant : ℕ → String → List (String × Bucket) → Windows → Option Bucket → Windows × Result Refusal ℕ
grant now key m w (some b) =
    if b.pending || leb max_count b.count
    then (record w { entries = m }, err too_many)
    else (record w { entries = put key (taken b) m }, ok b.serial)
grant now key m w none =
    if leb max_windows (length m) then (record w { entries = m }, err crowded) else (
      record {
        entries = put key (record { serial = w.next; start = now; count = 1; pending = true }) m;
        next = w.next + 1;
      },
      ok w.next,
    )

unfoldable pub question_lease : String → ℕ → Windows → Windows × Result Refusal ℕ
unfolding grant
question_lease key now w = let m = sweep now w.entries in grant now key m w (get key m)

free : String → ℕ → List (String × Bucket) → Option Bucket → List (String × Bucket)
free key serial m none = m
free key serial m (some b) =
    if b.serial == serial then put key (record b { pending = false }) m else m

-- The function that a lease returns.
unfoldable pub release : String → ℕ → Windows → Windows
unfolding free
release key serial w = record w { entries = free key serial w.entries (get key w.entries) }
