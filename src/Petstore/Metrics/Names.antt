-- ===== src/Petstore/Metrics/Names.antt =====
-- Which definitions newLookups of metrics.go accepts, and which metrics it later reports.
use gofordevopsclass.Prelude.{
  ℕ, ◌+◌, Bool, true, false, not, ◌&&◌, ◌||◌, nat_beq, nat_eq, string_eq, if◌then◌else◌, String,
  List, [], ◌∷◌, Option, some, is_some, one_if, count, count-append, contains, Option-cases,
  Bool-cases, inl, inr, ◌≡◌, refl, arith,
}
use gofordevopsclass.Prelude.Text.{is_empty}
use gofordevopsclass.GoMap.{GoMap, lookup, insert, keys, IsGoMap}
use gofordevopsclass.GoMap.Laws.{lookup-insert, insert-IsGoMap, empty-IsGoMap}
use gofordevopsclass.Petstore.Metrics.{
  MetricDef, is_set, Lookups, no_lookups, add_metric, add_metrics, new_lookups, unused_in, unused,
}

-- A definition with a known type, a name and a description.
abbrev pub is_complete : MetricDef → Bool
is_complete m =
    (nat_beq m.mtype 1 || nat_beq m.mtype 2 || nat_beq m.mtype 3)
    && not (is_empty m.name)
    && not (is_empty m.desc)

abbrev pub metric_names : List MetricDef → List String
metric_names [] = []
metric_names (m ∷ ms) = m.name ∷ metric_names ms

-- Complete definitions, no two of which share a name.
abbrev pub is_acceptable : List MetricDef → Bool
is_acceptable [] = true
is_acceptable (m ∷ ms) =
    is_complete m && not (contains m.name (metric_names ms)) && is_acceptable ms

-- No name is taken.
abbrev all_new : GoMap String Bool → List MetricDef → Bool
all_new ex [] = true
all_new ex (m ∷ ms) = not (is_set m.name ex) && all_new ex ms

all_new-insert :
    (n : String) (ex : GoMap String Bool) (ms : List MetricDef)
    → all_new (insert n true ex) ms ≡ (all_new ex ms && not (contains n (metric_names ms)))
all_new-insert n ex [] = refl
all_new-insert n ex (m ∷ ms) = ground (
  arith,
  all_new-insert n ex ms,
  lookup-insert n m.name true ex,
  string_eq.beq_iff n m.name,
  string_eq.beq_iff m.name n,
)

module _ {Instrument : Type 0} (make : ℕ → String → String → Option Instrument) where
  known_type :
      (m : MetricDef) (l : Lookups make)
      → ((t : ℕ) (n d : String) → is_some (make t n d) ≡ true)
      → is_some (add_metric make m l)
        ≡ (nat_beq m.mtype 1 || nat_beq m.mtype 2 || nat_beq m.mtype 3)
  unfolding add_metric
  known_type m l e = elim (Option-cases (make m.mtype m.name m.desc)) [
    | inl x ↦ absurd (ground (arith, e m.mtype m.name m.desc))
    | inr (i, x) ↦ ground arith
  ]

  add_metrics_accepts :
      (ex : GoMap String Bool) (ms : List MetricDef) (l : Lookups make)
      → ((t : ℕ) (n d : String) → is_some (make t n d) ≡ true)
      → is_some (add_metrics make ex ms l) ≡ (is_acceptable ms && all_new ex ms)
  unfolding add_metrics
  add_metrics_accepts ex [] l e = refl
  add_metrics_accepts ex (m ∷ ms) l e = elim (Option-cases (add_metric make m l)) [
    | inl x ↦ ground (arith, known_type m l e)
    | inr (k, x) ↦ ground (
      arith,
      known_type m l e,
      add_metrics_accepts (insert m.name true ex) ms k e,
      all_new-insert m.name ex ms,
    )
  ]

  taken_by_none : (ms : List MetricDef) → all_new [] ms ≡ true
  unfolding lookup
  taken_by_none [] = refl
  taken_by_none (m ∷ ms) = ground (arith, taken_by_none ms)

  -- newLookups, where the Meter makes every instrument it is asked for, goes through exactly if
  -- each definition has a known type, a name and a description, and no two have the same name.
  pub new_lookups-is_acceptable :
      (ms : List MetricDef)
      → ((t : ℕ) (n d : String) → is_some (make t n d) ≡ true)
      → is_some (new_lookups make ms) ≡ is_acceptable ms
  unfolding new_lookups
  new_lookups-is_acceptable ms e =
      ground (arith, add_metrics_accepts [] ms (no_lookups make) e, taken_by_none ms)

  -- Every metric has been entered under its name, and no name is that of two metrics.
  record Entered (ex : GoMap String Bool) (l : Lookups make) : Type 0 where
    pub hists_map : IsGoMap l.hists
    pub counters_map : IsGoMap l.counters
    pub apart :
        (k : String)
        → is_some (lookup k l.up_downs) ≡ true
        → (is_some (lookup k l.hists) ≡ false) × (is_some (lookup k l.counters) ≡ false)
    pub set_hists : (k : String) → is_set k ex ≡ false → is_some (lookup k l.hists) ≡ false
    pub set_counters : (k : String) → is_set k ex ≡ false → is_some (lookup k l.counters) ≡ false
    pub set_up_downs : (k : String) → is_set k ex ≡ false → is_some (lookup k l.up_downs) ≡ false

  hist-Entered :
      (ex : GoMap String Bool) (m : MetricDef) (l : Lookups make) (i : Instrument)
      → Entered ex l
      → is_set m.name ex ≡ false
      → Entered (insert m.name true ex) (record l { hists = insert m.name i l.hists })
  hist-Entered ex m l i v n = record {
    hists_map = insert-IsGoMap m.name i l.hists v.hists_map;
    counters_map = v.counters_map;
    apart = λ k e. ground (
      arith,
      lookup-insert m.name k i l.hists,
      v.apart k,
      v.set_hists k,
      v.set_counters k,
      v.set_up_downs k,
      string_eq.beq_iff m.name k,
    );
    set_hists = λ k e. ground (
      arith,
      lookup-insert m.name k i l.hists,
      lookup-insert m.name k true ex,
      v.set_hists k,
      string_eq.beq_iff m.name k,
    );
    set_counters = λ k e.
        ground
          (arith, lookup-insert m.name k true ex, v.set_counters k, string_eq.beq_iff m.name k);
    set_up_downs = λ k e.
        ground
          (arith, lookup-insert m.name k true ex, v.set_up_downs k, string_eq.beq_iff m.name k);
  }

  counter-Entered :
      (ex : GoMap String Bool) (m : MetricDef) (l : Lookups make) (i : Instrument)
      → Entered ex l
      → is_set m.name ex ≡ false
      → Entered (insert m.name true ex) (record l { counters = insert m.name i l.counters })
  counter-Entered ex m l i v n = record {
    hists_map = v.hists_map;
    counters_map = insert-IsGoMap m.name i l.counters v.counters_map;
    apart = λ k e. ground (
      arith,
      lookup-insert m.name k i l.counters,
      v.apart k,
      v.set_hists k,
      v.set_counters k,
      v.set_up_downs k,
      string_eq.beq_iff m.name k,
    );
    set_hists = λ k e.
        ground (arith, lookup-insert m.name k true ex, v.set_hists k, string_eq.beq_iff m.name k);
    set_counters = λ k e. ground (
      arith,
      lookup-insert m.name k i l.counters,
      lookup-insert m.name k true ex,
      v.set_counters k,
      string_eq.beq_iff m.name k,
    );
    set_up_downs = λ k e.
        ground
          (arith, lookup-insert m.name k true ex, v.set_up_downs k, string_eq.beq_iff m.name k);
  }

  up_down-Entered :
      (ex : GoMap String Bool) (m : MetricDef) (l : Lookups make) (i : Instrument)
      → Entered ex l
      → is_set m.name ex ≡ false
      → Entered (insert m.name true ex) (record l { up_downs = insert m.name i l.up_downs })
  up_down-Entered ex m l i v n = record {
    hists_map = v.hists_map;
    counters_map = v.counters_map;
    apart = λ k e. ground (
      arith,
      lookup-insert m.name k i l.up_downs,
      v.apart k,
      v.set_hists k,
      v.set_counters k,
      v.set_up_downs k,
      string_eq.beq_iff m.name k,
    );
    set_hists = λ k e.
        ground (arith, lookup-insert m.name k true ex, v.set_hists k, string_eq.beq_iff m.name k);
    set_counters = λ k e.
        ground
          (arith, lookup-insert m.name k true ex, v.set_counters k, string_eq.beq_iff m.name k);
    set_up_downs = λ k e. ground (
      arith,
      lookup-insert m.name k i l.up_downs,
      lookup-insert m.name k true ex,
      v.set_up_downs k,
      string_eq.beq_iff m.name k,
    );
  }

  add_metric-Entered :
      (ex : GoMap String Bool) (m : MetricDef) (l k : Lookups make)
      → Entered ex l
      → is_set m.name ex ≡ false
      → add_metric make m l ≡ some k
      → Entered (insert m.name true ex) k
  unfolding add_metric
  add_metric-Entered ex m l k v n h = elim (Option-cases (make m.mtype m.name m.desc)) [
    | inl x ↦ absurd (ground arith)
    | inr (i, x) ↦ elim (Bool-cases (nat_beq m.mtype 2)) [
      | inl a ↦
          let is : k ≡ record l { hists = insert m.name i l.hists } = ground arith in
          rw is (hist-Entered ex m l i v n)
      | inr a ↦ elim (Bool-cases (nat_beq m.mtype 3)) [
        | inl b ↦
            let is : k ≡ record l { up_downs = insert m.name i l.up_downs } = ground arith in
            rw is (up_down-Entered ex m l i v n)
        | inr b ↦
            let is : k ≡ record l { counters = insert m.name i l.counters } = ground arith in
            rw is (counter-Entered ex m l i v n)
      ]
    ]
  ]

  add_metrics-Entered :
      (ex : GoMap String Bool) (ms : List MetricDef) (l k : Lookups make)
      → Entered ex l
      → add_metrics make ex ms l ≡ some k
      → (ey : GoMap String Bool) × Entered ey k
  unfolding add_metrics
  add_metrics-Entered ex [] l k v h = (ex, ground arith)
  add_metrics-Entered ex (m ∷ ms) l k v h = elim (Option-cases (add_metric make m l)) [
    | inl x ↦ absurd (ground arith)
    | inr (j, x) ↦
        add_metrics-Entered (insert m.name true ex) ms j k
          (add_metric-Entered ex m l j v (ground arith) x) (ground arith)
  ]

  no_lookups-Entered : Entered [] (no_lookups make)
  unfolding lookup
  no_lookups-Entered = record {
    hists_map = empty-IsGoMap Instrument;
    counters_map = empty-IsGoMap Instrument;
    apart = λ k e. absurd (cc e);
    set_hists = λ k e. refl;
    set_counters = λ k e. refl;
    set_up_downs = λ k e. refl;
  }

  count-unused_in :
      (u : GoMap String Bool) (k : String) (ks : List String)
      → count k (unused_in make u ks) ≡ (if is_set k u then 0 else count k ks)
  count-unused_in u k [] = ground arith
  count-unused_in u k (j ∷ ks) = ground (arith, count-unused_in u k ks, string_eq.beq_iff j k)

  -- After newLookups, whatever has been used since: the report of unused metrics has a histogram or
  -- a counter once if it was not used, and no other name; a counter that goes down too is never
  -- reported.
  pub unused_exact :
      (ms : List MetricDef) (l : Lookups make) (u : GoMap String Bool) (k : String)
      → new_lookups make ms ≡ some l
      → count k (unused make (record l { used = u })) ≡ (
          if is_some (lookup k l.up_downs)
          then 0
          else if is_set k u
          then 0
          else one_if (is_some (lookup k l.hists)) + one_if (is_some (lookup k l.counters)))
  unfolding new_lookups unused
  unused_exact ms l u k h =
      let (ex, v) = add_metrics-Entered [] ms (no_lookups make) l no_lookups-Entered h in
      ground (
        arith,
        count-append k (unused_in make u (keys l.hists)) (unused_in make u (keys l.counters)),
        count-unused_in u k (keys l.hists),
        count-unused_in u k (keys l.counters),
        v.hists_map k,
        v.counters_map k,
        v.apart k,
      )
