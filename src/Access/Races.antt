-- ===== src/Access/Races.antt =====
-- verify_api_key (apps/api/dependencies/auth.py) in two halves: up to the commit, and the commit. Other
-- requests may run between them; each has a session and a copy of the row of its own.
use kra_analysis.Prelude.{
  ℕ, ◌+◌, map, arith, String, List, [], ◌∷◌, Option, none, some, Bool, true, false, not, length,
  if◌then◌else◌, All, Bool-cases, ◌≡◌, refl, ap, ◌∙◌, inl, inr,
}
use kra_analysis.Prelude.Dict.{Dict, get, put}
use kra_analysis.Prelude.Result.{Result, ok, err}
use kra_analysis.Prelude.Exec.{pure, raise, lift, modify, ◌>>=◌, ◌>>◌, try_except}
use kra_analysis.Access.Policy.{AuthError, http, backend_error, database_error, type_error, has}
use kra_analysis.Access.Keys.{
  ApiKey, KeyStore, Auth, round_trip, key_format, environment_key, find_key, is_expired, counted,
  use_key, use_unexpired, use_found, as_backend_error, known_key, verify_api_key, is_true,
}
use kra_analysis.Access.Requests.{within_limit, is_over_limit}

-- What the first half leaves: an answer, or the changed row that is to be committed.
pub data Opened : Type 0 where
  answered : Option ApiKey → Opened
  changed : ApiKey → Opened

abbrev open_unexpired : ℕ → ApiKey → Bool → Auth Opened
open_unexpired now row true = pure (answered none)
open_unexpired now row false = pure (changed (counted now row))

abbrev open_found : ℕ → Option ApiKey → Auth Opened
open_found now none = pure (answered none)
open_found now (some row) = lift (is_expired now row.expires_at) >>= open_unexpired now row

abbrev open_known : List String → ℕ → String → Auth Opened
open_known valid_api_keys now key =
    if not (key_format key)
    then pure (answered none)
    else if has valid_api_keys key
    then pure (answered (some (environment_key key)))
    else (find_key key >>= open_found now)

abbrev backend_of : AuthError → AuthError
backend_of database_error = backend_error
backend_of backend_error = backend_error
backend_of (http code detail) = http code detail
backend_of type_error = type_error

abbrev commit_opened : Opened → Auth (Option ApiKey)
commit_opened (answered found) = pure found
commit_opened (changed row) = do
  round_trip
  modify (λ w. record w { api_keys = put w.api_keys row.key row })
  pure (some row)

unfoldable pub open_key : List String → ℕ → String → Auth Opened
unfolding key_format find_key is_expired counted
open_key valid_api_keys now key =
    try_except (open_known valid_api_keys now key) (λ e. raise (backend_of e))

unfoldable pub close_key : Opened → Auth (Option ApiKey)
unfolding put round_trip
close_key opened = try_except (commit_opened opened) (λ e. raise (backend_of e))

use_found-open :
    (now : ℕ) (found : Option ApiKey) (w : KeyStore)
    → use_found now found w ≡ (open_found now found >>= commit_opened) w
unfolding ◌>>=◌ use_key
use_found-open now none w = refl
use_found-open now (some row) w =
    elim (is_expired now row.expires_at)
      as (λ r.
        (lift r >>= use_unexpired now row) w
        ≡ ((lift r >>= open_unexpired now row) >>= commit_opened) w) [
          | ok true ↦ refl
          | ok false ↦ refl
          | err e ↦ refl
        ]

found-open :
    (now : ℕ) (p : Result AuthError (Option ApiKey) × KeyStore)
    → ((λ (w : KeyStore). p) >>= use_found now) p.1
      ≡ (((λ (w : KeyStore). p) >>= open_found now) >>= commit_opened) p.1
unfolding ◌>>=◌
found-open now (ok found, t) = use_found-open now found t
found-open now (err e, t) = refl

known_key-open :
    (valid_api_keys : List String) (now : ℕ) (key : String) (w : KeyStore)
    → known_key valid_api_keys now key w ≡ (open_known valid_api_keys now key >>= commit_opened) w
unfolding ◌>>=◌
known_key-open valid_api_keys now key w = elim (Bool-cases (key_format key)) [
  | inr unfit ↦ rw unfit refl
  | inl fit ↦ elim (Bool-cases (has valid_api_keys key)) [
    | inl listed ↦ rw fit (rw listed refl)
    | inr unlisted ↦ rw fit (rw unlisted (found-open now (find_key key w)))
  ]
]

as_backend-of : (e : AuthError) (w : KeyStore) → as_backend_error e w ≡ (err (backend_of e), w)
unfolding ◌>>=◌
as_backend-of database_error w = refl
as_backend-of backend_error w = refl
as_backend-of (http code detail) w = refl
as_backend-of type_error w = refl

closed-handled :
    (p : Result AuthError (Option ApiKey) × KeyStore)
    → try_except (λ (w : KeyStore). p) as_backend_error p.1
      ≡ try_except (λ (w : KeyStore). p) (λ e. raise (backend_of e)) p.1
unfolding try_except ◌>>=◌
closed-handled (ok found, t) = refl
closed-handled (err e, t) = as_backend-of e t

opened-handled :
    (p : Result AuthError Opened × KeyStore)
    → try_except ((λ (w : KeyStore). p) >>= commit_opened) as_backend_error p.1
      ≡ (try_except (λ (w : KeyStore). p) (λ e. raise (backend_of e)) >>= close_key) p.1
unfolding try_except ◌>>=◌ close_key
opened-handled (ok opened, t) = closed-handled (commit_opened opened t)
opened-handled (err e, t) = as_backend-of e t

-- verify_api_key is its two halves with nothing between them.
pub verify_api_key-open-close :
    (valid_api_keys : List String) (now : ℕ) (key : String) (w : KeyStore)
    → verify_api_key valid_api_keys now key w ≡ (open_key valid_api_keys now key >>= close_key) w
unfolding verify_api_key open_key try_except ◌>>=◌
verify_api_key-open-close valid_api_keys now key w =
    ap (λ p. try_except (λ (t : KeyStore). p) as_backend_error w)
      (known_key-open valid_api_keys now key w)
    ∙ opened-handled (open_known valid_api_keys now key w)

-- Requests that present one key, one at each time: all read before the first of them commits.
unfoldable pub open_all : List String → String → List ℕ → Auth (List Opened)
unfolding open_key
open_all valid_api_keys key [] = pure []
open_all valid_api_keys key (now ∷ times) = do
  opened ← open_key valid_api_keys now key
  rest ← open_all valid_api_keys key times
  pure (opened ∷ rest)

abbrev pub one_within : Result AuthError ApiKey → ℕ
one_within (ok row) = 1
one_within (err e) = 0

-- The limit is checked after the commit.
abbrev pub one_admitted : Result AuthError (Option ApiKey) → ℕ
one_admitted (ok found) = one_within (within_limit found)
one_admitted (err e) = 0

unfoldable pub close_all : List Opened → KeyStore → ℕ × KeyStore
unfolding close_key
close_all [] w = (0, w)
close_all (opened ∷ rest) w =
    let (r, t) = close_key opened w in let (n, t') = close_all rest t in (one_admitted r + n, t')

abbrev close_opened : Result AuthError (List Opened) → KeyStore → ℕ × KeyStore
close_opened (ok opened) w = close_all opened w
close_opened (err e) w = (0, w)

-- How many of these requests are let through.
unfoldable pub admitted_together : List String → String → List ℕ → KeyStore → ℕ × KeyStore
unfolding open_all close_all
admitted_together valid_api_keys key times w =
    let (r, t) = open_all valid_api_keys key times w in close_opened r t

abbrev pub calm_store : Dict ApiKey → KeyStore
calm_store rows = record { api_keys = rows; outages = [] }

module _ (valid_api_keys : List String) (key : String) (row : ApiKey) (fit : key_format key ≡ true)
    (unlisted : has valid_api_keys key ≡ false) (active : is_true row.is_active ≡ true)
    (lasting : row.expires_at ≡ none) where
  opened_row :
      (now : ℕ) (rows : Dict ApiKey)
      → get rows key ≡ some row
      → open_key valid_api_keys now key (calm_store rows)
        ≡ (ok (changed (counted now row)), calm_store rows)
  unfolding open_key find_key round_trip is_expired try_except ◌>>=◌
  opened_row now rows stored = rw (fit, unlisted, stored, active, lasting) refl

  opened_rows :
      (times : List ℕ) (rows : Dict ApiKey)
      → get rows key ≡ some row
      → open_all valid_api_keys key times (calm_store rows)
        ≡ (ok (map (λ now. changed (counted now row)) times), calm_store rows)
  unfolding open_all ◌>>=◌
  opened_rows [] rows stored = refl
  opened_rows (now ∷ times) rows stored =
      rw (opened_row now rows stored, opened_rows times rows stored) refl

  closed_rows :
      (times : List ℕ) (rows : Dict ApiKey)
      → All (λ now. is_over_limit (counted now row) ≡ false) times
      → (close_all (map (λ now. changed (counted now row)) times) (calm_store rows)).0
        ≡ length times
  unfolding close_all close_key round_trip try_except ◌>>=◌
  closed_rows [] rows within = refl
  closed_rows (now ∷ times) rows within =
      rw within.0 (
        omega
          (arith, closed_rows times (put rows (counted now row).key (counted now row)) within.1))

  -- Requests that present the key of an active row without an expiry, and that all read the row before
  -- the first of them commits, are all let through while the database answers, however many they are,
  -- if one of them alone would be: each counts from what it has read.
  pub admitted_together-length :
      (times : List ℕ) (rows : Dict ApiKey)
      → get rows key ≡ some row
      → All (λ now. is_over_limit (counted now row) ≡ false) times
      → (admitted_together valid_api_keys key times (calm_store rows)).0 ≡ length times
  unfolding admitted_together
  admitted_together-length times rows stored within =
      rw (opened_rows times rows stored) (closed_rows times rows within)
