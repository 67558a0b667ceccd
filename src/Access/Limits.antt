-- ===== src/Access/Limits.antt =====
-- How many requests of one key are admitted in a day, one after another.
use kra_analysis.Prelude.{
  ℕ, suc, ◌+◌, ◌≤◌, ◌<◌, String, List, [], ◌∷◌, Option, none, some, true, false, All, ◌≡◌, ◌⊎◌,
  refl, sym, subst, ap, ◌∙◌, arith, inl, inr,
}
use kra_analysis.Prelude.Dict.{get, put, get-put_self, some_eq}
use kra_analysis.Prelude.Result.{Result, ok, err}
use kra_analysis.Access.Policy.{PolicyAction, AuthError, has}
use kra_analysis.Access.Keys.{ApiKey, KeyStore, Stamp, day, or_zero, counted, counted_today}
use kra_analysis.Access.Requests.{
  Admission, is_over_limit, require_action, resolve_presented_api_key,
}
use kra_analysis.Access.Granted.{IsVerified, IsUsed}
use kra_analysis.Access.Admitted.{require_action-Verified}
use kra_analysis.Access.Counting.{After, request-After}

abbrev pub one_if_ok : {A : Type 0} → Result AuthError A → ℕ
one_if_ok (ok a) = 1
one_if_ok (err e) = 0

-- A request: its time, its two ways to present a key, and what it is for.
pub record KeyRequest : Type 0 where
  pub time : ℕ
  pub x_api_key : Option String
  pub api_key : Option String
  pub action : PolicyAction

abbrev pub answer_of : List String → KeyRequest → KeyStore → Result AuthError Admission × KeyStore
answer_of valid_api_keys a w = require_action valid_api_keys a.time a.x_api_key a.api_key a.action w

-- Requests one after another: how many are admitted, and what they leave.
unfoldable pub requests : List String → List KeyRequest → KeyStore → ℕ × KeyStore
requests valid_api_keys [] w = (0, w)
requests valid_api_keys (a ∷ asked) w =
    let (r, t) = answer_of valid_api_keys a w in
    let (n, t') = requests valid_api_keys asked t in (one_if_ok r + n, t')

module _ (d : ℕ) where
  -- The counter of the day is not behind the requests that were admitted.
  abbrev Today : ℕ → ApiKey → Type 0
  Today m row =
      (m ≡ 0)
      ⊎ ((t : Stamp) × (row.last_used_at ≡ some t)
          × (d ≤ day t.seconds)
          × (m ≤ or_zero row.today_requests))

  counted_more :
      (now m : ℕ) (row : ApiKey)
      → day now ≡ d
      → Today m row
      → suc m ≤ counted_today now row.last_used_at (or_zero row.today_requests)
  counted_more now m row e (inl z) = first row.last_used_at
    where
      first : (t : Option Stamp) → suc m ≤ counted_today now t (or_zero row.today_requests)
      first none = omega arith
      first (some t) = ground arith
  counted_more now m row e (inr (t, used, late, h)) = rw used (ground arith)

  -- After `m` admitted requests of the day.
  record IsLimited (key : String) (limit m : ℕ) (w : KeyStore) : Type 0 where
    row : ApiKey
    stored : get w.api_keys key ≡ some row
    named : row.key ≡ key
    limited : row.daily_limit ≡ some limit
    bounded : m ≤ limit
    today : Today m row

  counted-IsLimited :
      (key : String) (limit now m n : ℕ) (w t : KeyStore) (l : IsLimited key limit m w)
      → day now ≡ d
      → t.api_keys ≡ put w.api_keys l.row.key (counted now l.row)
      → n ≤ suc m
      → n ≤ limit
      → IsLimited key limit n t
  unfolding counted
  counted-IsLimited key limit now m n w t l e written few bounded = record {
    row = counted now l.row;
    stored =
        subst (λ k. get t.api_keys k ≡ some (counted now l.row)) l.named
          (ap (λ x. get x l.row.key) written
            ∙ get-put_self w.api_keys l.row.key (counted now l.row));
    named = l.named;
    limited = l.limited;
    bounded = bounded;
    today = inr (
      record { is_aware = true; seconds = now },
      refl,
      omega arith,
      omega (arith, counted_more now m l.row e l.today),
    );
  }

  module _ (valid_api_keys : List String) (key : String) (limit : ℕ)
      (unlisted : has valid_api_keys key ≡ false) (positive : 0 < limit) where
    -- On the day, and with the key.
    abbrev pub Presents : KeyRequest → Type 0
    Presents a = (day a.time ≡ d) × (resolve_presented_api_key a.x_api_key a.api_key ≡ some key)

    same_row : (a b : ApiKey) (o : Option ApiKey) → o ≡ some a → o ≡ some b → a ≡ b
    same_row a b o e k = some_eq a b (sym e ∙ k)

    within :
        (row : ApiKey) (today : ℕ)
        → row.daily_limit ≡ some limit
        → row.today_requests ≡ some today
        → 0 < today
        → is_over_limit row ≡ false
        → today ≤ limit
    unfolding is_over_limit
    within row today e k p h = ground (arith, rw (e, k) at h)

    -- An admitted request was counted, and the count is within the limit.
    used-IsLimited :
        (now m : ℕ) (w t : KeyStore) (r : ApiKey) (l : IsLimited key limit m w)
        → day now ≡ d
        → IsUsed now key w r t
        → is_over_limit r ≡ false
        → IsLimited key limit (suc m) t
    unfolding counted
    used-IsLimited now m w t r l e used free =
        let same = same_row used.old l.row (get w.api_keys key) used.stored l.stored in
        let written =
          used.written ∙ ap (λ (x : ApiKey). put w.api_keys x.key (counted now x)) same in
        let more = counted_more now m l.row e l.today in
        let counted_row = used.row_eq ∙ ap (counted now) same in
        let enough =
          within (counted now l.row) _ l.limited refl (omega (arith, more))
            (ap is_over_limit (sym counted_row) ∙ free) in
        counted-IsLimited key limit now m (suc m) w t l e written (omega arith)
          (omega (arith, more, enough))

    admitted-IsLimited :
        (a : KeyRequest) (m : ℕ) (w : KeyStore) (adm : Admission) (t : KeyStore)
        → resolve_presented_api_key a.x_api_key a.api_key ≡ some key
        → IsLimited key limit m w
        → day a.time ≡ d
        → answer_of valid_api_keys a w ≡ (ok adm, t)
        → IsLimited key limit (suc m) t
    admitted-IsLimited a m w adm t mine l e answer =
        let (row, (key', presented, _, _, verified, free), _, _, _) =
          require_action-Verified valid_api_keys a.time a.x_api_key a.api_key a.action w adm t
            answer in
        by_key row key' (some_eq key key' (sym mine ∙ presented)) verified free
      where
        by_key :
            (row : ApiKey) (key' : String)
            → key ≡ key'
            → IsVerified a.time valid_api_keys key' w row t
            → is_over_limit row ≡ false
            → IsLimited key limit (suc m) t
        by_key row key' same (inl (known, _, _)) free =
            absurd (let k = ap (has valid_api_keys) same in cc)
        by_key row key' same (inr used) free =
            used-IsLimited a.time m w t row l e
              (subst (λ k. IsUsed a.time k w row t) (sym same) used) free

    refused-IsLimited :
        (now m : ℕ) (w t : KeyStore)
        → IsLimited key limit m w
        → day now ≡ d
        → After now key w t
        → IsLimited key limit m t
    refused-IsLimited now m w t l e (inl same) = record {
      row = l.row;
      stored = ap (λ x. get x key) same ∙ l.stored;
      named = l.named;
      limited = l.limited;
      bounded = l.bounded;
      today = l.today;
    }
    refused-IsLimited now m w t l e (inr (old, stored, written)) =
        let same = same_row old l.row (get w.api_keys key) stored l.stored in
        counted-IsLimited key limit now m m w t l e
          (written ∙ ap (λ (x : ApiKey). put w.api_keys x.key (counted now x)) same) (omega arith)
          l.bounded

    request-IsLimited :
        (a : KeyRequest) (m : ℕ) (w : KeyStore) (p : Result AuthError Admission × KeyStore)
        → resolve_presented_api_key a.x_api_key a.api_key ≡ some key
        → IsLimited key limit m w
        → day a.time ≡ d
        → answer_of valid_api_keys a w ≡ p
        → After a.time key w p.1
        → IsLimited key limit (one_if_ok p.0 + m) p.1
    request-IsLimited a m w (ok adm, t) mine l e answer after =
        subst (λ n. IsLimited key limit n t) (omega arith)
          (admitted-IsLimited a m w adm t mine l e answer)
    request-IsLimited a m w (err x, t) mine l e answer after =
        subst (λ n. IsLimited key limit n t) (omega arith)
          (refused-IsLimited a.time m w t l e after)

    requests-le :
        (asked : List KeyRequest) (m : ℕ) (w : KeyStore)
        → All Presents asked
        → IsLimited key limit m w
        → (requests valid_api_keys asked w).0 + m ≤ limit
    unfolding requests
    requests-le [] m w h l = omega (arith, l.bounded)
    requests-le (a ∷ asked) m w h l =
        let p = answer_of valid_api_keys a w in
        omega (
          arith,
          requests-le asked (one_if_ok p.0 + m) p.1 h.1 (
              request-IsLimited a m w p h.0.1 l h.0.0 refl
                (request-After a.time key w valid_api_keys a.x_api_key a.api_key a.action h.0.1)),
        )

    -- The row of a key that is not one of the environment has a positive daily limit. Of requests
    -- for any actions that present the key, in the header or the query, at times of one day, each of
    -- which ends before the next begins, require_action admits no more than the limit, whatever fails on
    -- the way.
    pub requests-le-daily_limit :
        (asked : List KeyRequest) (w : KeyStore) (row : ApiKey)
        → get w.api_keys key ≡ some row
        → row.key ≡ key
        → row.daily_limit ≡ some limit
        → All Presents asked
        → (requests valid_api_keys asked w).0 ≤ limit
    requests-le-daily_limit asked w row stored named limited h = omega (
      arith,
      requests-le asked 0 w h (record {
        row = row;
        stored = stored;
        named = named;
        limited = limited;
        bounded = omega arith;
        today = inl refl;
      }),
    )
