-- ===== src/Dashboard/AgentCommand.antt =====
-- dashboard/src/lib/agent-command.ts: the command that starts a camera's agent. `lower` stands for
-- `toLowerCase`.
use Prim.Native.String
use Prim.Native.Char.{Char, code}
use project.Base.{
  Bool, List, Option, String, [], concat, eq_option, eq_string, eq_ℕ, false, if◌then◌else◌, leb,
  ltb, none, not, some, suc, to_string, trim, true, utf16_length, zero, ℕ, ◌&&◌, ◌++◌, ◌==◌, ◌||◌,
  ◌∷◌,
}

pub data Shell : Type 0 where
  powershell bash : Shell

abbrev between : ℕ → ℕ → ℕ → Bool
between lo hi n = leb lo n && leb n hi

-- `[a-z0-9]`.
abbrev pub is_slug_code : ℕ → Bool
is_slug_code n = between 97 122 n || between 48 57 n

abbrev pub dash : ℕ
dash = 45

-- `replace(/[^a-z0-9]+/g, "-")`, by whether the last character was replaced.
unfoldable pub collapse : Bool → String → String
collapse replaced String.[] = ""
collapse replaced (String.◌∷◌ c s) =
    let kept = collapse false s in
    let gone = collapse true s in
    if is_slug_code (code c)
    then String.◌∷◌ c kept
    else if replaced
    then gone
    else String.◌∷◌ "-" gone

-- `replace(/^-+|-+$/g, '')`.
unfoldable pub trim_start_dashes : String → String
trim_start_dashes String.[] = ""
trim_start_dashes (String.◌∷◌ c s) =
    let rest = trim_start_dashes s in if code c == dash then rest else String.◌∷◌ c s

unfoldable pub drop_dash : Char → String → String
drop_dash c String.[] = if code c == dash then "" else String.◌∷◌ c ""
drop_dash c (String.◌∷◌ d s) = String.◌∷◌ c (String.◌∷◌ d s)

unfoldable pub trim_end_dashes : String → String
unfolding drop_dash
trim_end_dashes String.[] = ""
trim_end_dashes (String.◌∷◌ c s) = drop_dash c (trim_end_dashes s)

-- `slice(0, n)` of a text of ASCII characters.
unfoldable pub slice_chars : ℕ → String → String
slice_chars zero s = ""
slice_chars (suc n) String.[] = ""
slice_chars (suc n) (String.◌∷◌ c s) = String.◌∷◌ c (slice_chars n s)

unfoldable pub slugify : (lower : String → String) → String → String
unfolding collapse trim_start_dashes trim_end_dashes slice_chars
slugify lower value =
    slice_chars 40 (trim_end_dashes (trim_start_dashes (collapse false (lower value))))

unfoldable pub suggest_agent_id : (lower : String → String) → String → String
unfolding slugify
suggest_agent_id lower location =
    let slug = slugify lower location in
    if slug == "" then "camera-1" else String.◌++◌ "camera-" slug

-- `[a-zA-Z0-9._-]`.
abbrev pub is_id_code : ℕ → Bool
is_id_code n =
    between 97 122 n || between 65 90 n || between 48 57 n || n == 46 || n == 95 || n == dash

unfoldable pub all_codes : (ℕ → Bool) → String → Bool
all_codes p String.[] = true
all_codes p (String.◌∷◌ c s) = p (code c) && all_codes p s

-- `AGENT_ID_MAX_LENGTH`.
abbrev pub agent_id_max_length : ℕ
agent_id_max_length = 64

unfoldable pub validate_agent_id : String → Option String
unfolding trim utf16_length all_codes
validate_agent_id agent_id =
    if trim agent_id == ""
    then some "Give the camera an id."
    else if ltb agent_id_max_length (utf16_length agent_id)
    then some (concat ("Ids are at most " ∷ to_string agent_id_max_length ∷ " characters." ∷ []))
    else if agent_id == "" || not (all_codes is_id_code agent_id)
    then some "Use only letters, numbers, dot, underscore and hyphen — the id appears in a URL."
    else none

-- `value.replace(/'/g, ...)`: the quote again, or the quote, a backslash and the quote twice.
unfoldable pub escape : Shell → String → String
escape shell String.[] = ""
escape shell (String.◌∷◌ c s) =
    let rest = escape shell s in
    if code c == 39
    then elim shell [
      | powershell ↦ String.◌∷◌ c (String.◌∷◌ c rest)
      | bash ↦ String.◌∷◌ c (String.◌∷◌ "\\" (String.◌∷◌ c (String.◌∷◌ c rest)))
    ]
    else String.◌∷◌ c rest

unfoldable pub quote : Shell → String → String
unfolding escape
quote shell value = String.◌∷◌ "'" (String.◌++◌ (escape shell value) "'")

pub record CameraAgentOptions : Type 0 where
  pub agent_id : String
  pub location : String
  pub source : String
  pub stream_fps : ℕ
  pub stream_width : ℕ
  pub record_evidence : Bool
  pub hub_url : Option String

unfoldable pub load_key_line : Shell → String
load_key_line powershell = concat (
    "$env:AGENT_BOOTSTRAP_KEY = (Select-String -Path .env -Pattern '^AGENT_BOOTSTRAP_KEY=' | "
    ∷ "Select-Object -First 1).Line -replace '^AGENT_BOOTSTRAP_KEY=', ''" ∷ [])
load_key_line bash =
    "export AGENT_BOOTSTRAP_KEY=$(grep -m1 '^AGENT_BOOTSTRAP_KEY=' .env | cut -d= -f2-)"

-- An empty URL counts as none.
abbrev hub_args : Shell → Option String → List String
hub_args shell none = []
hub_args shell (some url) = if url == "" then [] else concat ("--hub " ∷ quote shell url ∷ []) ∷ []

-- The arguments after the first, which is `--type camera`.
unfoldable pub rest_args : Shell → CameraAgentOptions → List String
unfolding quote
rest_args shell options =
    (concat ("--id " ∷ options.agent_id ∷ [])
      ∷ concat ("--location " ∷ quote shell options.location ∷ [])
      ∷ "--real"
      ∷ concat
          ("--source " ∷ (if options.source == "0" then "0" else quote shell options.source) ∷ [])
      ∷ "--stream"
      ∷ concat ("--stream-fps " ∷ to_string options.stream_fps ∷ [])
      ∷ concat ("--stream-width " ∷ to_string options.stream_width ∷ [])
      ∷ [])
    ++ (if options.record_evidence then "--record-evidence" ∷ [] else [])
    ++ hub_args shell options.hub_url

abbrev continuation : Shell → String
continuation powershell = "`"
continuation bash = "\\"

unfoldable pub wrap : Shell → List String → List String
wrap shell [] = []
wrap shell (arg ∷ []) = concat ("  " ∷ arg ∷ []) ∷ []
wrap shell (arg ∷ next ∷ args) =
    concat ("  " ∷ arg ∷ " " ∷ continuation shell ∷ []) ∷ wrap shell (next ∷ args)

unfoldable pub join_lines : List String → String
join_lines [] = ""
join_lines (line ∷ []) = line
join_lines (line ∷ next ∷ lines) = concat (line ∷ "\n" ∷ join_lines (next ∷ lines) ∷ [])

unfoldable pub build_camera_agent_command : Shell → CameraAgentOptions → String
unfolding rest_args load_key_line wrap join_lines
build_camera_agent_command shell options = join_lines (
    "# From the repo root: make the enrollment key available, without printing it."
    ∷ load_key_line shell
    ∷ ""
    ∷ "cd agents"
    ∷ concat ("python run_agent.py --type camera " ∷ continuation shell ∷ [])
    ∷ wrap shell (rest_args shell options))
