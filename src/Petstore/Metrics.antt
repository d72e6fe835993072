-- ===== src/Petstore/Metrics.antt =====
-- petstore/server/telemetry/metrics/metrics.go: the metrics by their names, and which were used.
-- The instruments of go.opentelemetry.io/otel/metric are a parameter.
pub mod Names
use gofordevopsclass.Prelude.{
  ℕ, ◌+◌, Bool, true, false, not, ◌&&◌, ◌||◌, nat_beq, nat_eq, ◌==◌, string_eq, if◌then◌else◌,
  String, List, [], ◌∷◌, ◌++◌, Option, none, some, is_some, one_if, count, count-append, contains,
  Option-cases, Bool-cases, inl, inr, ◌≡◌, refl, sym, ◌∙◌, arith, beq_self,
}
use gofordevopsclass.Prelude.Text.{is_empty}
use gofordevopsclass.GoMap.{GoMap, lookup, insert, keys, IsGoMap}
use gofordevopsclass.GoMap.Laws.{lookup-insert}

-- metricDef. A type is 1 for a counter, 2 for a histogram, 3 for a counter that goes down too.
pub record MetricDef : Type 0 where
  pub mtype : ℕ
  pub name : String
  pub desc : String

-- m[k] of a map[string]bool.
abbrev pub is_set : String → GoMap String Bool → Bool
is_set k m = elim (lookup k m) [ none ↦ false | some b ↦ b ]

-- The calls of the Meter: an instrument for a type, a name and a description, or an error.
module _ {Instrument : Type 0} (make : ℕ → String → String → Option Instrument) where
  pub record Lookups : Type 0 where
    pub hists : GoMap String Instrument
    pub up_downs : GoMap String Instrument
    pub counters : GoMap String Instrument
    pub used : GoMap String Bool

  abbrev pub no_lookups : Lookups
  no_lookups = record { hists = []; up_downs = []; counters = []; used = [] }

  -- The switch over the type, with Must around the call of the Meter. none is Fatalf.
  abbrev pub put_instrument : MetricDef → Lookups → Option Instrument → Option Lookups
  put_instrument m l none = none
  put_instrument m l (some i) =
      if nat_beq m.mtype 2
      then some (record l { hists = insert m.name i l.hists })
      else if nat_beq m.mtype 3
      then some (record l { up_downs = insert m.name i l.up_downs })
      else if nat_beq m.mtype 1
      then some (record l { counters = insert m.name i l.counters })
      else none

  unfoldable pub add_metric : MetricDef → Lookups → Option Lookups
  add_metric m l =
      if nat_beq m.mtype 1 || nat_beq m.mtype 2 || nat_beq m.mtype 3
      then put_instrument m l (make m.mtype m.name m.desc)
      else none

  abbrev pub and_then : Option Lookups → (Lookups → Option Lookups) → Option Lookups
  and_then none f = none
  and_then (some l) f = f l

  -- The loop of newLookups, with its four checks.
  unfoldable pub add_metrics : GoMap String Bool → List MetricDef → Lookups → Option Lookups
  unfolding add_metric
  add_metrics exists [] l = some l
  add_metrics exists (m ∷ ms) l =
      let rest = and_then (add_metric m l) (add_metrics (insert m.name true exists) ms) in
      if nat_beq m.mtype 0
      then none
      else if is_empty m.name
      then none
      else if is_empty m.desc
      then none
      else if is_set m.name exists
      then none
      else rest

  unfoldable pub new_lookups : List MetricDef → Option Lookups
  unfolding add_metrics
  new_lookups ms = add_metrics [] ms no_lookups

  -- Int64, Int64UD and Int64Hist: the instrument of a name, which is used from then on.
  abbrev pub grabbed : String → Lookups → Option Instrument → Option (Instrument × Lookups)
  grabbed s l none = none
  grabbed s l (some i) = some (i, record l { used = insert s true l.used })

  unfoldable pub int64 : String → Lookups → Option (Instrument × Lookups)
  int64 s l = grabbed s l (lookup s l.counters)

  unfoldable pub int64_ud : String → Lookups → Option (Instrument × Lookups)
  int64_ud s l = grabbed s l (lookup s l.up_downs)

  unfoldable pub int64_hist : String → Lookups → Option (Instrument × Lookups)
  int64_hist s l = grabbed s l (lookup s l.hists)

  abbrev pub with_first :
      Instrument → Option (List Instrument × Lookups) → Option (List Instrument × Lookups)
  with_first i none = none
  with_first i (some (v, l)) = some (i ∷ v, l)

  abbrev pub then_all :
      Option (Instrument × Lookups)
      → (Lookups → Option (List Instrument × Lookups))
      → Option (List Instrument × Lookups)
  then_all none f = none
  then_all (some (i, l)) f = with_first i (f l)

  -- Int64s, Int64UDs and Int64Hists, by the call that they repeat.
  unfoldable pub grab_all :
      (String → Lookups → Option (Instrument × Lookups))
      → List String
      → Lookups
      → Option (List Instrument × Lookups)
  grab_all get [] l = some ([], l)
  grab_all get (s ∷ ss) l = then_all (get s l) (grab_all get ss)

  abbrev pub unused_in : GoMap String Bool → List String → List String
  unused_in used [] = []
  unused_in used (k ∷ ks) = if is_set k used then unused_in used ks else k ∷ unused_in used ks

  -- unused, before it is sorted.
  unfoldable pub unused : Lookups → List String
  unused l = unused_in l.used (keys l.hists) ++ unused_in l.used (keys l.counters)
