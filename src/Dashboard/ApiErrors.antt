-- ===== src/Dashboard/ApiErrors.antt =====
-- What the dashboard shows of an error's body.
use project.Base.{
  Option, String, [], arith, concat, eq_option, eq_string, eq_ℕ, false, none, refl, some, to_string,
  ℕ, ◌==◌, ◌∷◌, ◌≡◌,
}
use project.Contracts.Auth.{AuthRole, eq_role}
use project.Dashboard.Api.{
  ApiError, ErrorBody, answered, body_message, body_role, is_ok, object_message, read_json, refused,
  request, text_message, to_api_error,
}

-- A refusal that names its message and its role at the top reads like one that nests both.
same_error :
    (status : ℕ) (s : String) (r : AuthRole)
    → to_api_error status (some (record { said = text_message s; role = some r }))
      ≡ to_api_error status (some (record { said = object_message (some s) (some r); role = none }))
unfolding to_api_error body_message body_role
same_error status s r = refl

-- Messages that come as an array, as those of a validation do, are not shown.
validation_unread :
    (status : ℕ)
    → (status == 401) ≡ false
    → (to_api_error status (some (record { said = object_message none none; role = none }))).message
      ≡ concat ("Request failed (" ∷ to_string status ∷ ")" ∷ [])
unfolding to_api_error body_message
validation_unread status h = rw h refl

-- An answer that is refused has no status of a success, and the error is the one that its body
-- gives.
request_refused {ℓ} :
    {A : Type ℓ} (status : ℕ) (body : Option A) (error : Option ErrorBody) (e : ApiError)
    → request (answered status body error) ≡ refused e
    → (is_ok status ≡ false) × (e ≡ to_api_error status error)
unfolding request read_json
request_refused status body error e h = ground (arith, h)
