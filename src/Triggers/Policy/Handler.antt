-- ===== src/Triggers/Policy/Handler.antt =====
-- internal/engine/triggers/policy.go: error handlers and the status codes that they claim; the
-- rejections of a policy document.
use astrate.Base.{
  [], ◌∷◌, ◌≡◌, ◌≤◌, ◌+◌, ◌⊎◌, All, ℕ, String, Bool, true, false, ◌&&◌, ◌||◌, List, if◌then◌else◌,
  any, ℤ, pos, leb_ℤ, eq_ℤ, str_eq, codes,
}

pub data Strategy : Type 0 where
  discard retry : Strategy

abbrev pub is_retry : Strategy → Bool
is_retry retry = true
is_retry discard = false

-- `onKind` with the field that it selects: the keyword or the status codes.
pub data On : Type 0 where
  keyword : String → On
  explicit : List ℤ → On

pub record Handler : Type 0 where
  pub on : On
  pub strategy : Strategy

-- lo <= status && status <= hi
abbrev pub within : ℕ → ℕ → ℤ → Bool
within lo hi status = leb_ℤ (pos lo) status && leb_ℤ status (pos hi)

abbrev pub contains_code : List ℤ → ℤ → Bool
contains_code codes status = any (λ c. eq_ℤ c status) codes

abbrev pub status_transport : ℤ
status_transport = pos 0

unfoldable pub claims_transport : On → Bool
claims_transport (keyword k) = str_eq k "any_error" || str_eq k "server_error"
claims_transport (explicit _) = false

unfoldable pub claims_status : On → ℤ → Bool
claims_status (keyword k) status =
    if str_eq k "any_error"
    then within 400 599 status
    else if str_eq k "client_error"
    then within 400 499 status
    else if str_eq k "server_error"
    then within 500 599 status
    else false
claims_status (explicit codes) status = contains_code codes status

unfoldable pub claims : Handler → ℤ → Bool
unfolding claims_transport claims_status
claims h status =
    if eq_ℤ status status_transport then claims_transport h.on else claims_status h.on status

-- The rejections, in the order of the source. `index_panic` is a Go index out of range.
pub data PolicyError : Type 0 where
  not_json bad_name no_handlers bad_strategy bad_keyword bad_on : PolicyError
  empty_codes code_out_of_range overlap index_panic : PolicyError
  bad_retry_times stray_retry_times bad_capacity bad_prefetch bad_ttl : PolicyError

-- A status code that a policy may name.
abbrev pub IsCode : ℤ → Type 0
IsCode c = (n : ℕ) × (c ≡ pos n) × (400 ≤ n) × (n ≤ 599)

-- What `compileHandlerOn` lets through.
abbrev pub IsOn : On → Type 0
IsOn (keyword k) = (k ≡ "any_error") ⊎ ((k ≡ "client_error") ⊎ (k ≡ "server_error"))
IsOn (explicit codes) = All IsCode codes

abbrev pub AreValid : List Handler → Type 0
AreValid hs = All (λ h. IsOn h.on) hs

-- How many of the handlers claim a status code.
unfoldable pub claimants : List Handler → ℤ → ℕ
claimants [] status = 0
claimants (h ∷ hs) status = (if claims h status then 1 else 0) + claimants hs status
