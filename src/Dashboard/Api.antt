-- ===== src/Dashboard/Api.antt =====
-- dashboard/src/lib/api.ts, `request` and `toApiError`: how an answer of the hub, or none, becomes
-- a value or an error.
use project.Base.{
  Bool, Option, String, [], concat, eq_option, eq_string, eq_ℕ, if◌then◌else◌, leb, ltb, none, not,
  some, to_string, ℕ, ◌&&◌, ◌==◌, ◌∷◌,
}
use project.Contracts.Auth.{AuthRole}

pub record ApiError : Type 0 where
  pub status : ℕ
  pub message : String
  pub requires_role : Option AuthRole

abbrev pub is_auth_failure : ApiError → Bool
is_auth_failure e = e.status == 401

abbrev pub is_forbidden : ApiError → Bool
is_forbidden e = e.status == 403

-- The `message` of an error's body: a text, an object with its own fields (an array has neither), or
-- nothing.
pub data BodyMessage : Type 0 where
  text_message : String → BodyMessage
  object_message : Option String → Option AuthRole → BodyMessage
  no_message : BodyMessage

pub record ErrorBody : Type 0 where
  pub said : BodyMessage
  pub role : Option AuthRole

-- What `fetch` gives: an answer with its status and body, the body none where it is not JSON; or a
-- failure, which may be a timeout.
pub data Fetched {ℓ} (A : Type ℓ) : Type ℓ where
  answered : ℕ → Option A → Option ErrorBody → Fetched A
  failed : (timed_out : Bool) → Fetched A

-- The value of a call: none for a 204. A success whose body is not JSON throws outside `ApiError`.
pub data Reply {ℓ} (A : Type ℓ) : Type ℓ where
  value : Option A → Reply A
  refused : ApiError → Reply A
  unreadable : Reply A

abbrev pub get_or : Option String → String → String
get_or none s = s
get_or (some t) s = t

abbrev pub or_role : Option AuthRole → Option AuthRole → Option AuthRole
or_role none r = r
or_role (some q) r = some q

unfoldable pub body_message : String → Option ErrorBody → String
body_message fallback none = fallback
body_message fallback (some b) = elim b.said [
  | text_message s ↦ s
  | object_message s r ↦ get_or s fallback
  | no_message ↦ fallback
]

unfoldable pub body_role : Option ErrorBody → Option AuthRole
body_role none = none
body_role (some b) = elim b.said [
  | text_message s ↦ b.role
  | object_message s r ↦ or_role r b.role
  | no_message ↦ b.role
]

unfoldable pub to_api_error : ℕ → Option ErrorBody → ApiError
unfolding body_message body_role to_string concat
to_api_error status body =
    let message = body_message (concat ("Request failed (" ∷ to_string status ∷ ")" ∷ [])) body in
    record {
      status = status;
      message = if status == 401 then "That credential was rejected by the hub." else message;
      requires_role = body_role body;
    }

-- `response.ok`.
abbrev pub is_ok : ℕ → Bool
is_ok status = leb 200 status && ltb status 300

unfoldable pub read_json {ℓ} : {A : Type ℓ} → Option A → Reply A
read_json none = unreadable
read_json (some a) = value (some a)

unfoldable pub request {ℓ} : {A : Type ℓ} → Fetched A → Reply A
unfolding to_api_error read_json
request (failed timed_out) = refused (record {
  status = 0;
  message =
      if timed_out
      then "The hub did not respond within 10s."
      else "Could not reach the hub. Is it running?";
  requires_role = none;
})
request (answered status body error) =
    if not (is_ok status)
    then refused (to_api_error status error)
    else if status == 204
    then value none
    else read_json body
