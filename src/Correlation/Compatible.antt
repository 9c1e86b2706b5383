-- ===== src/Correlation/Compatible.antt =====
-- The tests of internal/correlation/correlation.go on a producer span and a consumer span, the keys of
-- its maps, and the distance in time.
use Prim.Native.Char.{nul}
use Prim.Native.String.{◌++◌}
use async_trace_doctor.Common.{String, Bool, false, ◌&&◌, ◌||◌, not, ◌==◌, if◌then◌else◌}
use async_trace_doctor.Common.Int.{ltb_ℤ, pos}
use async_trace_doctor.Common.Texts.{equal_fold, to_lower, has_prefix, before}
use async_trace_doctor.Model.{
  Duration, sub_time, neg_duration, Span, system, destination, environment, service_namespace,
  destination_namespace, server_address, partition,
}

unfoldable pub optional_equal : String → String → Bool
optional_equal a b = a == "" || b == "" || a == b

unfoldable pub strong_scope_compatible : Span → Span → Bool
unfolding optional_equal
strong_scope_compatible p c =
    optional_equal (environment p) (environment c)
    && optional_equal (service_namespace p) (service_namespace c)

unfoldable pub scope_compatible : Span → Span → Bool
unfolding optional_equal
scope_compatible p c =
    optional_equal (environment p) (environment c)
    && optional_equal (service_namespace p) (service_namespace c)
    && optional_equal (destination_namespace p) (destination_namespace c)
    && optional_equal (server_address p) (server_address c)

unfoldable pub destination_compatible : String → Span → Span → Bool
unfolding optional_equal equal_fold
destination_compatible sys p c =
    let pd = destination p in
    let cd = destination c in
    if pd == "" || cd == ""
    then false
    else if not (equal_fold sys "rabbitmq")
    then pd == cd && optional_equal (partition p) (partition c)
    else pd == cd || has_prefix cd (pd ++ ":") || has_prefix pd (cd ++ ":")

unfoldable pub compatible : Span → Span → Bool
unfolding destination_compatible scope_compatible equal_fold
compatible p c =
    not (system p == "")
    && equal_fold (system p) (system c)
    && destination_compatible (system p) p c
    && scope_compatible p c

-- A text with a zero byte in front of it.
abbrev pub after_nul : String → String
after_nul s = String.◌∷◌ nul s

unfoldable pub route_lookup_key : Span → String
unfolding equal_fold to_lower before
route_lookup_key s =
    let sys = system s in
    let dest = destination s in
    if sys == "" || dest == ""
    then ""
    else to_lower sys ++ after_nul (if equal_fold sys "rabbitmq" then before b':' dest else dest)

unfoldable pub context_key : String → String → String
context_key t s = t ++ ("/" ++ s)

unfoldable pub message_key : String → String → String
message_key route identity = route ++ after_nul identity

-- The distance from the producer's end to the consumer's start, as Go computes it on 64 bits.
unfoldable pub delta : Span → Span → Duration
unfolding sub_time neg_duration
delta p c = let d = sub_time c.start p.end in if ltb_ℤ d (pos 0) then neg_duration d else d
