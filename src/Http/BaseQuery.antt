-- ===== src/Http/BaseQuery.antt =====
-- frontend/src/app/services/axiosBaseQuery.ts: the answer of a request as RTK Query's result. The
-- payload `data` of an envelope, and a body that is none, are values of any type.
use k8s_platform.Common.{
  ℕ, zero, suc, String, ◌≡◌, refl, true, false, Option, none, some, arith, nat_eq, if◌then◌else◌,
}
use k8s_platform.Text.{truthy, or_text}
use k8s_platform.Http.{ErrorResponseData, Response, field}
use k8s_platform.Http.Errors.{or_text-truthy}

-- A body: an object with a field `code`, or anything else.
pub data Body (A : Type 0) : Type 0 where
  envelope : (code : ℕ) → (message : Option String) → (payload : A) → Body A
  plain : A → Body A

-- How the request ended: with a status and a body, or with an axios error.
pub data Result (A : Type 0) : Type 0 where
  resolved : ℕ → Body A → Result A
  threw : Option Response → String → Result A

-- The field `data` of an error: the whole envelope, or the body that came with the failure.
pub data Cause (A : Type 0) : Type 0 where
  of_envelope : (code : ℕ) → (message : Option String) → (payload : A) → Cause A
  of_response : Option ErrorResponseData → Cause A

pub record BaseQueryError (A : Type 0) : Type 0 where
  pub status : Option ℕ
  pub cause : Cause A
  pub message : String

pub data Answer (A : Type 0) : Type 0 where
  value : A → Answer A
  error : BaseQueryError A → Answer A

abbrev status_of : Option Response → Option ℕ
status_of none = none
status_of (some r) = some r.status

abbrev body_of : Option Response → Option ErrorResponseData
body_of none = none
body_of (some r) = r.body

module _ {A : Type 0} where
  unfoldable pub base_query : Result A → Answer A
  base_query (resolved status (plain body)) = value body
  base_query (resolved status (envelope code message payload)) =
      if nat_eq code 0
      then value payload
      else error (record {
        status = some status;
        cause = of_envelope code message payload;
        message = or_text message "Request failed";
      })
  base_query (threw response message) = error (record {
    status = status_of response;
    cause = of_response (body_of response);
    message = or_text (field (λ d. d.message) response) (
        or_text (field (λ d. d.msg) response)
          (or_text (field (λ d. d.error) response) (or_text (some message) "Request failed")));
  })

  -- What a result has for the caller.
  abbrev pub delivered : Result A → Option A
  delivered (resolved status (plain body)) = some body
  delivered (resolved status (envelope zero message payload)) = some payload
  delivered (resolved status (envelope (suc n) message payload)) = none
  delivered (threw response message) = none

  abbrev pub Answers : Option A → Answer A → Type 0
  Answers o (value a) = o ≡ some a
  Answers o (error e) = (o ≡ none) × (truthy e.message ≡ true)

  -- The caller gets the payload of an envelope with code 0 or the body that is no envelope, and an
  -- error in every other case, whose message is not empty.
  pub base_query-Answers : (r : Result A) → Answers (delivered r) (base_query r)
  unfolding base_query
  base_query-Answers (resolved status (plain body)) = refl
  base_query-Answers (resolved status (envelope zero message payload)) = refl
  base_query-Answers (resolved status (envelope (suc n) message payload)) =
      let failed : nat_eq (suc n) 0 ≡ false = ground arith in
      rw failed (refl, or_text-truthy message "Request failed" refl)
  base_query-Answers (threw response message) =
      let own = or_text-truthy (some message) "Request failed" refl in
      let error = or_text-truthy (field (λ d. d.error) response) _ own in
      let msg = or_text-truthy (field (λ d. d.msg) response) _ error in
      (refl, or_text-truthy (field (λ d. d.message) response) _ msg)
