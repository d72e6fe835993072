-- ===== src/Petstore/Examples/Telemetry.antt =====
-- A line of the log, an event of the pool, and a set of metrics.
use gofordevopsclass.Prelude.{
  ℕ, ◌+◌, String, string_eq, List, [], ◌∷◌, Option, none, some, is_some, one_if, count,
  if◌then◌else◌, ◌≡◌, refl, arith,
}
use gofordevopsclass.GoMap.{lookup, insert}
use gofordevopsclass.Petstore.Log.{Bytes, Moment, Now, output}
use gofordevopsclass.Petstore.Log.Format.{Fits, read_line, with_newline, read_line-output}
use gofordevopsclass.Petstore.Log.Events.{int, new_object, reset, add}
use gofordevopsclass.Petstore.Log.Pool.{new_pool, done, new_event, add_to, event_shared}
use gofordevopsclass.Petstore.Metrics.{
  MetricDef, is_set, Lookups, add_metric, add_metrics, new_lookups, unused,
}
use gofordevopsclass.Petstore.Metrics.Names.{is_acceptable, new_lookups-is_acceptable, unused_exact}

abbrev morning : Moment
morning = record {
  year = 2009;
  month = 1;
  day = 23;
  hour = 1;
  min = 23;
  sec = 5;
  nanosecond = 123000;
}

abbrev now : Now
now = record { local = morning; utc = morning }

morning-Fits : Fits morning
morning-Fits = record {
  year_fits = omega arith;
  month_fits = omega arith;
  day_fits = omega arith;
  hour_fits = omega arith;
  min_fits = omega arith;
  sec_fits = omega arith;
}

read_line-output_example :
    (bs : Bytes) × (output 3 now none (104 ∷ 105 ∷ []) ≡ some bs)
    × (read_line bs ≡ (record {
      year = 2009;
      month = 1;
      day = 23;
      hour = 1;
      min = 23;
      sec = 5;
      text = with_newline (104 ∷ 105 ∷ []);
    }))
read_line-output_example = read_line-output now none (104 ∷ 105 ∷ []) morning-Fits

event_shared_example :
    let (out, p1) = done 0 new_pool in
    let (b, p2) = new_event 0 "mem.data.byNames()" p1 in
    let (c, p3) = new_event 0 "mem.data.byTypes()" p2 in
    let p4 = add_to c "count" (int 7) p3 in
    (b ≡ 0)
    × (c ≡ 0)
    × ((p3.object b).name ≡ "mem.data.byTypes()")
    × (p4.object b
        ≡ add (record (reset new_object) { name = "mem.data.byTypes()" }) "count" (int 7))
event_shared_example =
    event_shared 0 new_pool "mem.data.byNames()" "mem.data.byTypes()" "count" (int 7) refl

abbrev make_number : ℕ → String → String → Option ℕ
make_number t name desc = some t

abbrev two_metrics : List MetricDef
two_metrics =
    (record { mtype = 1; name = "AddPets-requests"; desc = "requests" })
    ∷ (record { mtype = 3; name = "AddPets-current"; desc = "current" })
    ∷ []

new_lookups-is_acceptable_example :
    is_some (new_lookups make_number two_metrics) ≡ is_acceptable two_metrics
new_lookups-is_acceptable_example =
    new_lookups-is_acceptable make_number two_metrics (λ t n d. refl)

abbrev two_entered : Lookups make_number
two_entered = record {
  hists = [];
  up_downs = ("AddPets-current", 3) ∷ [];
  counters = ("AddPets-requests", 1) ∷ [];
  used = [];
}

entered : new_lookups make_number two_metrics ≡ some two_entered
unfolding new_lookups add_metrics add_metric lookup insert
entered = refl

unused_exact_example :
    count "AddPets-requests" (unused make_number (record two_entered { used = [] })) ≡ (
      if is_some (lookup "AddPets-requests" two_entered.up_downs)
      then 0
      else if is_set "AddPets-requests" []
      then 0
      else one_if (is_some (lookup "AddPets-requests" two_entered.hists))
        + one_if (is_some (lookup "AddPets-requests" two_entered.counters)))
unused_exact_example =
    unused_exact make_number two_metrics two_entered [] "AddPets-requests" entered
