-- ===== src/Petstore/Sampler.antt =====
-- petstore/server/telemetry/tracing/sampler/sampler.go, and the RPC that switches its child:
-- ChangeSampler of petstore/server/server.go and of petstore/client/client.go.
-- The samplers of go.opentelemetry.io/otel/sdk/trace and float64 are parameters.
use gofordevopsclass.Prelude.{
  ℕ, String, Bool, true, false, ◌&&◌, ◌||◌, not, if◌then◌else◌, nat_beq, string_eq, List, Option,
  none, some, is_some, ◌≡◌, arith,
}
use gofordevopsclass.GoMap.{GoMap, lookup}
use gofordevopsclass.Petstore.Client.{
  CallOption, traced, handle_call_options, handled, handling_panics,
}

-- otelTrace.SpanContext, as ShouldSample reads it.
pub record SpanContext : Type 0 where
  pub is_valid : Bool
  pub is_remote : Bool
  pub is_sampled : Bool
  pub trace_state : String

-- trace.SamplingParameters: what the parent context holds of the span and of the metadata of the
-- call, and the id that the ratio is taken of.
pub record SamplingParameters : Type 0 where
  pub span : SpanContext
  pub incoming : Option (GoMap String (List String))
  pub trace_id : ℕ

pub data Decision : Type 0 where
  drop record_only record_and_sample : Decision

pub record SamplingResult : Type 0 where
  pub decision : Decision
  pub state : String

-- trace.Sampler: its method ShouldSample.
abbrev pub Child : Type 0
Child = SamplingParameters → SamplingResult

-- The sampler of this package, by the child that it stores.
pub record Sampler : Type 0 where
  pub child : Child

-- New and Switch refuse a nil child; Switch panics.
unfoldable pub new_sampler : Option Child → Option Sampler
new_sampler none = none
new_sampler (some c) = some (record { child = c })

unfoldable pub switch : Sampler → Option Child → Option Sampler
switch s none = none
switch s (some c) = some (record { child = c })

abbrev pub sampled_as : SpanContext → SamplingResult
sampled_as psc = record { decision = record_and_sample; state = psc.trace_state }

abbrev pub has_trace : Option (GoMap String (List String)) → Bool
has_trace none = false
has_trace (some md) = is_some (lookup "trace" md)

-- The part behind the tests of the span context.
unfoldable pub by_metadata : Sampler → SamplingParameters → SamplingResult
by_metadata s p = elim p.incoming [
  | none ↦ s.child p
  | some md ↦ if is_some (lookup "trace" md) then sampled_as p.span else s.child p
]

unfoldable pub should_sample : Sampler → SamplingParameters → SamplingResult
unfolding by_metadata
should_sample s p =
    if p.span.is_valid
    then (if p.span.is_remote
        then (if p.span.is_sampled
            then sampled_as p.span
            else (if p.span.is_sampled then sampled_as p.span else by_metadata s p))
        else (if p.span.is_sampled then sampled_as p.span else by_metadata s p))
    else by_metadata s p

-- float64 with the two tests that the code makes, and the samplers of the SDK.
module _ (Float64 : Type 0) (le_zero gt_one : Float64 → Bool) where
  -- pb.Sampler, and the Sampler of package client, whose types are the same numbers.
  pub record SamplerMsg : Type 0 where
    pub type : ℕ
    pub float_value : Float64

  -- What the client sends, or its error.
  unfoldable pub validate : SamplerMsg → Bool
  validate s =
      (nat_beq s.type 1 || nat_beq s.type 2 || nat_beq s.type 3)
      && (if nat_beq s.type 3 then not (le_zero s.float_value || gt_one s.float_value) else true)

  -- The answers of ChangeSampler. A request without a Sampler makes the handler panic.
  pub data Changed : Type 0 where
    changed : Sampler → Changed
    invalid_float invalid_type changing_crashed : Changed

  module _ (never_sample always_sample : Child) (ratio_based : Float64 → Child) where
    abbrev pub switched : Option Sampler → Changed
    switched none = changing_crashed
    switched (some s) = changed s

    -- The handler: the switch over the type.
    unfoldable pub change_sampler : Sampler → Option SamplerMsg → Changed
    unfolding switch
    change_sampler s none = changing_crashed
    change_sampler s (some m) =
        if nat_beq m.type 0
        then invalid_type
        else if nat_beq m.type 1
        then switched (switch s (some never_sample))
        else if nat_beq m.type 2
        then switched (switch s (some always_sample))
        else if nat_beq m.type 3
        then (if le_zero m.float_value || gt_one m.float_value
            then invalid_float
            else switched (switch s (some (ratio_based m.float_value))))
        else invalid_type

    -- What Client.ChangeSampler gives: the error of its own check or a panic of its options, the
    -- server not being called, or what the server does.
    pub data ClientChange : Type 0 where
      change_refused change_panics : ClientChange
      asked : Changed → ClientChange

    -- Client.ChangeSampler. Its header is nil.
    unfoldable pub client_change_sampler : Sampler → SamplerMsg → List CallOption → ClientChange
    unfolding handle_call_options
    client_change_sampler s m options =
        if validate m
        then (elim (handle_call_options none options) [
          | handling_panics ↦ change_panics
          | handled t h ↦ asked (change_sampler s (some m))
        ])
        else change_refused

    -- The sampler that each valid type stands for.
    abbrev pub child_of : SamplerMsg → Child
    child_of m =
        if nat_beq m.type 1
        then never_sample
        else if nat_beq m.type 2
        then always_sample
        else ratio_based m.float_value

-- A span is sampled by its parent if the parent is valid and sampled, and by its caller if the
-- metadata of the call has the key "trace".
abbrev pub is_asked_for : SamplingParameters → Bool
is_asked_for p = (p.span.is_valid && p.span.is_sampled) || has_trace p.incoming

-- A parent that is valid and sampled, or the key "trace" in the metadata of the call, make a
-- sampled span with the trace state of the parent, whatever the child says; in every other case
-- the child decides.
pub should_sample_exact :
    (s : Sampler) (p : SamplingParameters)
    → should_sample s p ≡ (if is_asked_for p then sampled_as p.span else s.child p)
unfolding should_sample by_metadata
should_sample_exact s p = ground arith

module _ (Float64 : Type 0) (le_zero gt_one : Float64 → Bool) (never_sample always_sample : Child)
    (ratio_based : Float64 → Child) where
  -- A reply that is no refusal.
  abbrev pub accepted :
      Changed Float64 le_zero gt_one
      → ClientChange Float64 le_zero gt_one never_sample always_sample ratio_based
  accepted (changed s) = asked (changed s)
  accepted _ = change_refused

  -- The check of the client and the switch of the server agree on every type and value: without a
  -- trace, the client holds back exactly the calls that the server would refuse.
  pub client_change_sampler-accepted :
      (s : Sampler) (m : SamplerMsg Float64 le_zero gt_one) (options : List CallOption)
      → traced none options ≡ none
      → client_change_sampler Float64 le_zero gt_one never_sample always_sample ratio_based s m
          options
        ≡ accepted (
            change_sampler Float64 le_zero gt_one never_sample always_sample ratio_based s (some m))
  unfolding client_change_sampler validate change_sampler switch handle_call_options
  client_change_sampler-accepted s m options h = ground arith

  -- After a ChangeSampler that went through, a span is sampled if its parent or its caller asks for
  -- it, and else by the sampler of the type that the client gave, with its rate, whatever the
  -- sampler before it was.
  pub changed_sampler_decides :
      (s t : Sampler) (m : SamplerMsg Float64 le_zero gt_one) (options : List CallOption)
      (p : SamplingParameters)
      → client_change_sampler Float64 le_zero gt_one never_sample always_sample ratio_based s m
          options
        ≡ asked (changed t)
      → should_sample t p ≡ (
          if is_asked_for p
          then sampled_as p.span
          else child_of Float64 le_zero gt_one never_sample always_sample ratio_based m p)
  unfolding client_change_sampler validate change_sampler switch handle_call_options
  changed_sampler_decides s t m options p h = ground (arith, should_sample_exact t p)
