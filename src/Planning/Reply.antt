-- ===== src/Planning/Reply.antt =====
-- A plan pair in an agent's reply (loop/plan_node.py, `parse_reply`; loop/helpers.py,
-- `validate_json`, `truncate`; loop/plan_revision.py, `proposed`, `escalation`). A document that the
-- schemas accept is an object, so a parsed document is its fields.
use paper_to_pipeline.Base.{
  ℕ, zero, suc, String, Bool, true, Option, none, some, List, [], ◌∷◌, ◌++◌, map, keep, not,
  contains, length, eqb, leb, if◌then◌else◌, string_eq,
}
use paper_to_pipeline.Planning.Calls.{Called, raised, returned}
use Prim.Native.Nat.{◌%◌}
use Prim.Native.Char.{code}
use paper_to_pipeline.Base.Text.{append, char_count, has_part, is_nil, strip}
use paper_to_pipeline.Base.Json.{Fields, names}

abbrev no_jsonschema : String
no_jsonschema = append "jsonschema is not installed, and this document cannot be " (
    append "meaningfully checked without it (its schema relies on nested "
      "required, if/then and additionalProperties)")

-- A schema file: its `required` keys, and what `jsonschema` says of a document.
pub record Schema (D : Type 0) : Type 0 where
  pub required : List String
  pub violations : D → List String

-- `json.loads`, the findall of the fenced blocks, `text.count("```")`, `s.lower()`, the groups of
-- `ESCALATION_RE`, and whether `jsonschema` is installed.
pub record Reader (D : Type 0) : Type 0 where
  pub loads : String → Called D
  pub find_blocks : String → List String
  pub count_fences : String → ℕ
  pub lower : String → String
  pub match_escalation : String → Option (String × String)
  pub has_jsonschema : Bool

-- An error of `parse_reply`: a wrong number of blocks, and whether one may have been cut off, or a
-- document's error under its label.
pub data ReplyError : Type 0 where
  not_two_blocks : (found : ℕ) (cut_off : Bool) → ReplyError
  in_document : (label text : String) → ReplyError

-- `s[:n]`
abbrev pub take_chars : ℕ → String → String
take_chars zero s = String.[]
take_chars (suc n) String.[] = String.[]
take_chars (suc n) (String.◌∷◌ c s) = String.◌∷◌ c (take_chars n s)

unfoldable pub truncate : (limit : ℕ) → String → String
truncate limit text =
    if leb (char_count text) limit then text else append (take_chars limit text) " ...[truncated]"

module _ {A : Type 0} (reader : Reader (Fields A)) where
  -- The errors of a document that is JSON.
  unfoldable pub schema_errors :
      Schema (Fields A) → (require_jsonschema : Bool) → Fields A → List String
  unfolding contains
  schema_errors schema require document =
      if reader.has_jsonschema
      then schema.violations document
      else if require
      then no_jsonschema ∷ []
      else map (append "missing required field: ")
          (keep (λ k. not (contains (names document) k)) schema.required)

  unfoldable pub validate_loaded :
      Schema (Fields A)
      → (require_jsonschema : Bool) → Called (Fields A)
      → Option (Fields A) × List String
  unfolding schema_errors
  validate_loaded schema require (raised error) = (none, append "not valid JSON: " error ∷ [])
  validate_loaded schema require (returned document) =
      (some document, schema_errors schema require document)

  unfoldable pub validate_json :
      String → Schema (Fields A) → (require_jsonschema : Bool) → Option (Fields A) × List String
  unfolding validate_loaded
  validate_json text schema require = validate_loaded schema require (reader.loads text)

  -- One document of the reply, and its errors.
  unfoldable pub parse_document :
      (label : String) → Schema (Fields A) → String → Option (Fields A) × List ReplyError
  unfolding validate_json truncate
  parse_document label schema block =
      let (document, errors) = validate_json block schema true in
      (document, map (λ e. in_document label (truncate 300 e)) errors)

  unfoldable pub parse_blocks :
      (port_schema tests_schema : Schema (Fields A)) (cut_off : Bool)
      → List String
      → Option (Fields A) × Option (Fields A) × List ReplyError
  unfolding parse_document
  parse_blocks port_schema tests_schema cut_off (port_block ∷ tests_block ∷ []) =
      let (port, port_errors) = parse_document "port plan" port_schema port_block in
      let (tests, tests_errors) = parse_document "test plan" tests_schema tests_block in
      (port, tests, port_errors ++ tests_errors)
  parse_blocks port_schema tests_schema cut_off blocks =
      (none, none, not_two_blocks (length blocks) cut_off ∷ [])

  unfoldable pub parse_reply :
      (port_schema tests_schema : Schema (Fields A))
      → String
      → Option (Fields A) × Option (Fields A) × List ReplyError
  unfolding parse_blocks
  parse_reply port_schema tests_schema text =
      parse_blocks port_schema tests_schema (not (eqb (reader.count_fences text % 2) 0))
        (reader.find_blocks text)

  -- A reply of `None` is the empty text.
  unfoldable pub proposed : String → Bool
  unfolding has_part
  proposed reply = has_part (reader.lower "## Plan revision") (reader.lower reply)

-- `s.rstrip(",")`
unfoldable pub rstrip_comma : String → String
rstrip_comma String.[] = String.[]
rstrip_comma (String.◌∷◌ c s) =
    let rest = rstrip_comma s in
    if eqb (code c) b','
    then (if is_nil rest then String.[] else String.◌∷◌ c rest)
    else String.◌∷◌ c rest

-- What `escalation` returns.
pub record Claim : Type 0 where
  pub pointer : String
  pub reason : String

module _ {D : Type 0} (reader : Reader D) where
  unfoldable pub escalation : String → Option Claim
  unfolding rstrip_comma
  escalation reply = elim (reader.match_escalation reply) [
    | none ↦ none
    | some groups ↦ some (record { pointer = rstrip_comma groups.0; reason = strip groups.1 })
  ]
