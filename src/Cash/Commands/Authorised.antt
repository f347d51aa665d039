-- ===== src/Cash/Commands/Authorised.antt =====
-- Who may run a command, and the steps of one that succeeds.
use Prim.Native.String.{String}
use hanamaru_shientool_prod.Prelude.{
  Bool, true, false, ◌||◌, Option, none, some, ok, ◌==◌, ==_iff, ◌≡◌, refl, ap, ◌∙◌, subst,
  All-member, find-eq-some, arith,
}
use mathlib.Core.List.{Memᴰ}
use hanamaru_shientool_prod.Prelude.Maps.{get}
use hanamaru_shientool_prod.Json.{Json, field}
use hanamaru_shientool_prod.Expense.{
  Problem, denied, version_conflict, invalid, has, require, or_missing, is_uuid,
}
use hanamaru_shientool_prod.Expense.Items.Changes.{Always, bind-Always, ok_injective}
use hanamaru_shientool_prod.Cash.{
  Store, Call, BranchDay, Permission, permits, check_enabled, authority, load, money,
  is_open_status, or_denied,
}
use hanamaru_shientool_prod.Cash.Commands.{
  Action, may, for_officers, for_closers, is_officer, after_closing, perform, finished, command,
}

-- The feature is on, the caller is no administrator, and a permission of the caller in the day's branch
-- holds now.
pub record Authorised (s : Store) (c : Call) (branch : String) (p : Permission) : Type 0 where
  pub feature : s.enabled ≡ true
  pub ordinary : has c.context.roles "system_admin" ≡ false
  pub listed : Memᴰ p s.permissions
  pub holds : permits branch c.context.membership_id c.now p ≡ true

-- The steps of a command that succeeds.
pub record Ran (a : Action) (s : Store) (c : Call) (id : String) (b : Json) (t : Store)
    : Type 0 where
  pub day : BranchDay
  pub permission : Permission
  pub result : Store
  pub found : get id s.branch_days ≡ some day
  pub authorised : Authorised s c day.branch_id permission
  pub allowed : may permission a ≡ true
  pub version : money (field "expectedLockVersion" b) ≡ ok day.lock_version
  pub timely : (is_open_status day.status || after_closing a) ≡ true
  pub performed : perform a s c id day b ≡ ok result
  pub finish : finished a c id day result ≡ t

or_denied-some : {A : Type 0} (o : Option A) (a : A) → or_denied o ≡ ok a → o ≡ some a
or_denied-some none a e = absurd (ground arith)
or_denied-some (some b) a e = ground arith

or_missing-some : {A : Type 0} (o : Option A) (a : A) → or_missing o ≡ ok a → o ≡ some a
or_missing-some none a e = absurd (ground arith)
or_missing-some (some b) a e = ground arith

authority-Authorised :
    (s : Store) (c : Call) (branch : String)
    → Always (Authorised s c branch) (authority s c c.context.membership_id branch)
unfolding authority check_enabled
authority-Authorised s c branch p e =
    bind-Always (Authorised s c branch) (check_enabled s c) _
      (λ u on p e.
        let there =
          find-eq-some (λ x. Memᴰ x s.permissions) (permits branch c.context.membership_id c.now)
            s.permissions p (All-member s.permissions) (or_denied-some _ p e) in
        record {
          feature = ground (arith, on);
          ordinary = ground (arith, on);
          listed = there.0;
          holds = there.1;
        })
      p e

record Loaded (s : Store) (c : Call) (id : String) (r : BranchDay × Permission) : Type 0 where
  found : get id s.branch_days ≡ some r.0
  authorised : Authorised s c r.0.branch_id r.1

load-Loaded : (s : Store) (c : Call) (id : String) → Always (Loaded s c id) (load s c id)
unfolding load
load-Loaded s c id r e =
    bind-Always (Loaded s c id) (require (is_uuid id) invalid) _
      (λ u h. bind-Always (Loaded s c id) (or_missing (get id s.branch_days)) _ (λ day found.
        bind-Always (Loaded s c id) (authority s c c.context.membership_id day.branch_id) _
          (λ p h r e. subst (Loaded s c id) (ok_injective e) (record {
            found = or_missing-some (get id s.branch_days) day found;
            authorised = authority-Authorised s c day.branch_id p h;
          }))))
      r e

require-ok : (x : Bool) (p : Problem) (u : Unit {0}) → require x p ≡ ok u → x ≡ true
require-ok true p u e = refl
require-ok false p u e = absurd (ground arith)

pub command-Ran :
    (a : Action) (s : Store) (c : Call) (id : String) (b : Json)
    → Always (Ran a s c id b) (command a s c id b)
unfolding command
command-Ran a s c id b t e =
    let P = Ran a s c id b in
    bind-Always P (load s c id) _
      (λ r loaded. bind-Always P (require (may r.1 a) denied) _ (λ u may.
        bind-Always P (money (field "expectedLockVersion" b)) _ (λ n version.
          bind-Always P (require (n == r.0.lock_version) version_conflict) _ (λ v same.
            bind-Always P (require (is_open_status r.0.status || after_closing a) denied) _
              (λ w timely. bind-Always P (perform a s c id r.0 b) _ (λ u done t e.
                let first = load-Loaded s c id r loaded in
                record {
                  day = r.0;
                  permission = r.1;
                  result = u;
                  found = first.found;
                  authorised = first.authorised;
                  allowed = require-ok _ denied tt may;
                  version =
                      version
                      ∙ ap ok
                          ((==_iff n r.0.lock_version).0 (require-ok _ version_conflict tt same));
                  timely = require-ok _ denied tt timely;
                  performed = done;
                  finish = ok_injective e;
                }))))))
      t e

-- What a command takes: the permission that its action needs, and the present version of an open day or
-- an action that is still done after the closing.
pub record Permitted (a : Action) (s : Store) (c : Call) (id : String) (b : Json) : Type 0 where
  pub day : BranchDay
  pub permission : Permission
  pub found : get id s.branch_days ≡ some day
  pub authorised : Authorised s c day.branch_id permission
  pub officer : for_officers a ≡ true → is_officer permission.authority ≡ true
  pub closer : for_closers a ≡ true → permission.can_close ≡ true
  pub version : money (field "expectedLockVersion" b) ≡ ok day.lock_version
  pub timely : is_open_status day.status ≡ false → after_closing a ≡ true

-- A command that succeeds was run with the feature on, by a caller who is no administrator and whose
-- permission in the day's branch holds at that time, an officer's for a correction, a reversal or a
-- resolution and one to close for a reconciliation or a closing. It named the day's present version, and
-- on a closed day it is a correction, a report or a resolution.
pub command-Permitted :
    (a : Action) (s t : Store) (c : Call) (id : String) (b : Json)
    → command a s c id b ≡ ok t
    → Permitted a s c id b
command-Permitted a s t c id b e =
    let r = command-Ran a s c id b t e in
    let may = r.allowed in
    let timely = r.timely in
    record {
      day = r.day;
      permission = r.permission;
      found = r.found;
      authorised = r.authorised;
      officer = λ p. ground (arith, may, p);
      closer = λ p. ground (arith, may, p);
      version = r.version;
      timely = λ p. ground (arith, timely, p);
    }
