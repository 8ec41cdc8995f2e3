-- ===== src/Limits/Body.antt =====
-- What comes before a request's handler (api-worker/src/storeDO.ts, getSecurityBodySizeLimitBytes,
-- getClientIpAddress, enforceSecurityBodySizeLimit and enforceSecurityPreflight). A header is none
-- when it is missing; a body is the sizes of its chunks, none when there is no stream.
use instant_grant_core.Prelude.{
  ℕ, ◌+◌, ◌*◌, ◌≤◌, ◌≡◌, inl, inr, Bool, true, false, ◌&&◌, not, ◌==◌, Option, none, some, List, [],
  ◌∷◌, Text, codes, map, trim, is_empty, ltb, Bool-cases, if◌then◌else◌, arith,
}
use instant_grant_core.Js.{ℤ, pos, negsuc}
use instant_grant_core.Limits.Env.{parse_bounded_int, parse_bounded_int-bounds, parse_int}
use instant_grant_core.Limits.Policy.{RateEnv, is_api_path, is_mutating_method, upper}
use instant_grant_core.Limits.Rate.{RateStore, Refusal, enforce_security_rate_limit}

unfoldable pub get_security_body_size_limit_bytes : Option Text → ℕ
get_security_body_size_limit_bytes raw = parse_bounded_int raw (64 * 1024) (4 * 1024) (1024 * 1024)

-- `s.split(',')[0]`
abbrev before_comma : Text → Text
before_comma [] = []
before_comma (c ∷ s) = let rest = before_comma s in if c == b',' then [] else c ∷ rest

abbrev header_text : Option Text → Text
header_text none = []
header_text (some raw) = trim raw

unfoldable pub get_client_ip_address : Option Text → Option Text → Text
get_client_ip_address connecting_ip forwarded_for =
    let ip = header_text connecting_ip in
    let first = trim (before_comma (header_text forwarded_for)) in
    if not (is_empty ip) then ip else (if not (is_empty first) then first else codes "unknown")

-- The chunks in order, with the bytes read so far: whether they go over the limit.
unfoldable pub is_over : ℕ → ℕ → List ℕ → Bool
is_over most total [] = false
is_over most total (size ∷ sizes) =
    let rest = is_over most (total + size) sizes in if ltb most (total + size) then true else rest

-- What the header alone decides: some answer, or none when the body has to be read.
abbrev length_verdict : ℕ → Option ℤ → Option Bool
length_verdict most none = none
length_verdict most (some (negsuc n)) = none
length_verdict most (some (pos n)) = some (ltb most n)

abbrev header_verdict : ℕ → Option Text → Option Bool
header_verdict most none = none
header_verdict most (some raw) = if is_empty raw then none else length_verdict most (parse_int raw)

abbrev body_verdict : ℕ → Option (List ℕ) → Bool
body_verdict most none = false
body_verdict most (some sizes) = is_over most 0 sizes

abbrev verdict_or : Bool → Option Bool → Bool
verdict_or otherwise none = otherwise
verdict_or otherwise (some verdict) = verdict

pub record Incoming : Type 0 where
  pub method : Text
  pub path : Text
  pub content_length : Option Text
  pub body : Option (List ℕ)
  pub connecting_ip : Option Text
  pub forwarded_for : Option Text

-- True is the answer 413.
unfoldable pub enforce_security_body_size_limit : Option Text → Incoming → Bool
enforce_security_body_size_limit limit q =
    let most = get_security_body_size_limit_bytes limit in
    is_api_path q.path
    && is_mutating_method (map upper q.method)
    && verdict_or (body_verdict most q.body) (header_verdict most q.content_length)

pub data PreflightAnswer : Type 0 where
  passed too_large : PreflightAnswer
  rate_limited : Refusal → PreflightAnswer

abbrev pub rate_answer : Option Refusal → PreflightAnswer
rate_answer none = passed
rate_answer (some refusal) = rate_limited refusal

-- The size of the body first, then the budgets.
unfoldable pub enforce_security_preflight :
    (Text → Text)
    → Option Text
    → Option Text
    → RateEnv
    → RateStore
    → Incoming
    → ℕ
    → RateStore × PreflightAnswer
enforce_security_preflight hash limit enabled env store q now =
    let rate =
      enforce_security_rate_limit hash enabled env store q.path q.method
        (get_client_ip_address q.connecting_ip q.forwarded_for) now in
    if enforce_security_body_size_limit limit q
    then (store, too_large)
    else (rate.0, rate_answer rate.1)

-- The bytes of a body.
abbrev pub total_bytes : List ℕ → ℕ
total_bytes [] = 0
total_bytes (size ∷ sizes) = size + total_bytes sizes

is_over-total_bytes :
    (most total : ℕ) (sizes : List ℕ)
    → total ≤ most
    → is_over most total sizes ≡ ltb most (total + total_bytes sizes)
unfolding is_over
is_over-total_bytes most total [] h = ground arith
is_over-total_bytes most total (size ∷ sizes) h = elim (Bool-cases (ltb most (total + size))) [
  | inl over ↦ rw over (ground arith)
  | inr under ↦ rw under (ground (arith, is_over-total_bytes most (total + size) sizes))
]

-- A request to the API that may change something, with a body and without a usable length in its
-- header, is refused exactly when its chunks have more bytes in all than the limit, however they
-- are cut. The limit is between 4 KiB and 1 MiB whatever the environment says.
pub enforce_security_body_size_limit-total_bytes :
    (limit : Option Text) (q : Incoming) (sizes : List ℕ)
    → is_api_path q.path ≡ true
    → is_mutating_method (map upper q.method) ≡ true
    → q.content_length ≡ none
    → q.body ≡ some sizes
    → (enforce_security_body_size_limit limit q
        ≡ ltb (get_security_body_size_limit_bytes limit) (total_bytes sizes))
      × (4096 ≤ get_security_body_size_limit_bytes limit)
      × (get_security_body_size_limit_bytes limit ≤ 1048576)
unfolding enforce_security_body_size_limit get_security_body_size_limit_bytes
enforce_security_body_size_limit-total_bytes limit q sizes api mutating headless body =
    let bounds =
      parse_bounded_int-bounds limit (64 * 1024) (4 * 1024) (1024 * 1024) (omega arith)
        (omega arith) in
    (
      rw (api, mutating, headless, body)
          (ground (
            arith,
            is_over-total_bytes (get_security_body_size_limit_bytes limit) 0 sizes (omega arith),
          )),
      bounds.0,
      bounds.1,
    )
