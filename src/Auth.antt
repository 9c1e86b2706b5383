-- ===== src/Auth.antt =====
-- internal/server/auth.go: which requests reach the handlers behind the bearer token. The handlers, and
-- the maps of headers that net/http and grpc hand over, are parameters.
use Prim.Native.Char.{code}
use async_trace_doctor.Common.{
  ℕ, zero, suc, ◌≡◌, ◌≢◌, refl, inl, inr, String, Bool, true, false, not, ◌&&◌, ◌||◌, List, [], ◌∷◌,
  nat_eq, leb, ◌==◌, if◌then◌else◌, Bool-cases, eq_iff,
}
use async_trace_doctor.Common.Texts.{has_prefix}

-- unicode.IsSpace
is_space : ℕ → Bool
is_space c =
    (leb 9 c && leb c 13)
    || nat_eq c 32
    || nat_eq c 133
    || nat_eq c 160
    || nat_eq c 5760
    || (leb 8192 c && leb c 8202)
    || nat_eq c 8232
    || nat_eq c 8233
    || nat_eq c 8239
    || nat_eq c 8287
    || nat_eq c 12288

trim_left_space : String → String
unfolding is_space
trim_left_space String.[] = String.[]
trim_left_space (String.◌∷◌ c s) = if is_space (code c) then trim_left_space s else String.◌∷◌ c s

trim_right_space : String → String
unfolding is_space
trim_right_space String.[] = String.[]
trim_right_space (String.◌∷◌ c s) =
    let rest = trim_right_space s in
    if is_space (code c) && rest == "" then String.[] else String.◌∷◌ c rest

-- strings.TrimSpace
unfoldable pub trim_space : String → String
unfolding trim_left_space trim_right_space
trim_space s = trim_right_space (trim_left_space s)

-- A text without its first characters, which the prefix is made of.
unfoldable pub drop_chars : ℕ → String → String
drop_chars zero s = s
drop_chars (suc n) String.[] = String.[]
drop_chars (suc n) (String.◌∷◌ c s) = drop_chars n s

-- validBearer: the comparison takes constant time and answers equality.
unfoldable pub valid_bearer : String → String → Bool
unfolding trim_space drop_chars
valid_bearer header token =
    if not (has_prefix header "Bearer ") then false else trim_space (drop_chars 7 header) == token

-- BearerAuthMiddleware lets the request on to `next`; it answers 401 otherwise.
unfoldable pub bearer_auth_middleware : String → String → String → Bool
unfolding valid_bearer
bearer_auth_middleware token path authorization =
    if token == "" then true else path == "/health" || valid_bearer authorization token

-- BearerAuthInterceptor lets the call on to the handler; it answers Unauthenticated otherwise.
unfoldable pub bearer_auth_interceptor : String → List String → Bool
unfolding valid_bearer
bearer_auth_interceptor token [] = token == ""
bearer_auth_interceptor token (value ∷ values) =
    if token == "" then true else valid_bearer value token

-- Where a token is set, a request to another path than /health and a call pass with the same header, and
-- only with the prefix of a bearer token and then the token itself, with nothing around it but space.
-- A call without a header does not pass.
pub bearer_auth-agree :
    (token path authorization : String) (others : List String)
    → token ≢ ""
    → path ≢ "/health"
    → (bearer_auth_middleware token path authorization
        ≡ bearer_auth_interceptor token (authorization ∷ others))
      × (bearer_auth_interceptor token [] ≡ false)
      × (bearer_auth_interceptor token (authorization ∷ others) ≡ true
          → (has_prefix authorization "Bearer " ≡ true)
            × (trim_space (drop_chars 7 authorization) ≡ token))
unfolding bearer_auth_middleware bearer_auth_interceptor valid_bearer
bearer_auth-agree token path authorization others set elsewhere =
    let t : (token == "") ≡ false = differs token "" set in
    let p : (path == "/health") ≡ false = differs path "/health" elsewhere in
    (
      rw (t, p) refl,
      t,
      (λ h. elim (Bool-cases (has_prefix authorization "Bearer ")) [
        | inl b ↦ (b, (eq_iff _ _).0 (rw (t, b) at h))
        | inr n ↦ absurd (cc (rw (t, n) at h))
      ]),
    )
  where
    differs : (s u : String) → s ≢ u → (s == u) ≡ false
    differs s u n = elim (Bool-cases (s == u)) [
      | inl same ↦ absurd (n ((eq_iff s u).0 same))
      | inr other ↦ other
    ]
