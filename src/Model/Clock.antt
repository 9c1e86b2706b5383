-- ===== src/Model/Clock.antt =====
-- time.Time and time.Duration, as internal/model, internal/correlation and internal/server use them.
use async_trace_doctor.Common.{ℕ, ◌+◌, ◌-◌, Bool, ltb, nat_eq, if◌then◌else◌}
use async_trace_doctor.Common.Int.{ℤ, pos_part, neg_part, sub_ℕ, ltb_ℤ, max_int64, min_int64, neg}

-- Nanoseconds since the zero time.
abbrev pub Time : Type 0
Time = ℕ

abbrev pub Duration : Type 0
Duration = ℤ

-- time.Unix(0, 0), as nanoseconds since the zero time.
abbrev pub unix_epoch : Time
unix_epoch = 62135596800000000000

-- t.IsZero(), t.Before(u), t.After(u)
abbrev pub is_zero : Time → Bool
is_zero t = nat_eq t 0

abbrev pub is_before : Time → Time → Bool
is_before t u = ltb t u

abbrev pub is_after : Time → Time → Bool
is_after t u = ltb u t

-- t.Add(d). A result before the zero time is compared as the zero time, which comes before nothing
-- that the zero time does not come before.
unfoldable pub add_duration : Time → Duration → Time
add_duration t d = t + pos_part d - neg_part d

-- t.Sub(u): the difference, held within the range of a Duration.
unfoldable pub sub_time : Time → Time → Duration
sub_time t u =
    let d = sub_ℕ t u in
    if ltb_ℤ max_int64 d then max_int64 else if ltb_ℤ d min_int64 then min_int64 else d

-- -d on 64 bits: the least Duration is its own negation.
unfoldable pub neg_duration : Duration → Duration
neg_duration d = if ltb_ℤ min_int64 d then neg d else d
