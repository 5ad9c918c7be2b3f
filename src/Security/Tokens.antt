-- ===== src/Security/Tokens.antt =====
-- hub/src/common/security/tokens.ts: agent tokens and shared secrets.
use Prim.Native.String
use text.Mathlib.Text.{starts_with}
use project.Base.{
  Bool, String, [], concat, eq_string, eq_ℕ, false, if◌then◌else◌, leb, not, utf16_length, ◌-◌,
  ◌==◌, ◌||◌, ◌∷◌,
}
use project.Http.{Result, err, internal, ok}

-- `AGENT_TOKEN_PREFIX` of packages/contracts/src/auth.ts.
abbrev pub agent_token_prefix : String
agent_token_prefix = "ag_"

-- `hash` stands for SHA-256 in hexadecimal, `random` for the base64url text of 32 random bytes.
unfoldable pub mint_agent_token : (hash : String → String) → (random : String) → String × String
mint_agent_token hash random =
    let token = String.◌++◌ agent_token_prefix random in (token, hash token)

unfoldable pub looks_like_agent_token : String → Bool
looks_like_agent_token credential = starts_with credential agent_token_prefix

-- The lengths are compared in UTF-16 units; `timingSafeEqual` then throws where the UTF-8 buffers
-- differ in size.
unfoldable pub secret_matches : String → String → Result Bool
secret_matches provided expected =
    if expected == "" || not (utf16_length provided == utf16_length expected)
    then ok false
    else (if String.len provided == String.len expected
        then ok (provided == expected)
        else err internal)

-- `redact`: the first six and the last two characters of a long credential. JavaScript slices by
-- UTF-16 unit; a credential here is ASCII, where a unit is a byte.
unfoldable pub redact : String → String
redact credential =
    if leb (String.len credential) 8
    then "***"
    else concat (
        String.slice credential 0 6
        ∷ "..."
        ∷ String.slice credential (String.len credential - 2) (String.len credential)
        ∷ [])
