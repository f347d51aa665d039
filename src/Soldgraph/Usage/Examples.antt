-- ===== src/Soldgraph/Usage/Examples.antt =====
-- A usage report.
use hanamaru_shientool_prod.Prelude.{false, some, ◌≡◌, refl}
use hanamaru_shientool_prod.Json.{Json, obj, member, end, str, num, nat, bool}
use hanamaru_shientool_prod.Soldgraph.Usage.{Usage, one_time, parse_usage, available}

abbrev usage_report : Json
usage_report = obj (
    member "plan" (str "free") (
      member "used" (num (nat 30)) (
        member "limit" (num (nat 100)) (
          member "remaining" (num (nat 70)) (
            member "extra_requests" (num (nat 5)) (
              member "window" (str "one_time") (
                member "shared_allowance" (bool false)
                  (member "rate_limit_per_minute" (num (nat 10)) end))))))))

abbrev usage : Usage
usage = record {
  plan = "free";
  used = 30;
  limit = some 100;
  remaining = some 70;
  extra_requests = 5;
  window = one_time;
  shared_allowance = false;
  rate_limit_per_minute = 10;
}

read : parse_usage usage_report ≡ some usage
unfolding parse_usage
read = refl

left : available usage false ≡ some (some 70)
unfolding available
left = refl
