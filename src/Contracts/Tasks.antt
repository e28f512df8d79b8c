-- ===== src/Contracts/Tasks.antt =====
-- contracts/src/tasks.ts: requests, results and statuses of managed tasks.
use surfgate.Common.{
  ℕ, ◌*◌, Bool, true, false, not, ◌&&◌, Option, none, some, leb, ltb, nat_eq, length, all,
  all_option, or_default, is_some, if◌then◌else◌,
}
use surfgate.Contracts.Text.{Text, trim, length_within, is_hex}
use surfgate.Contracts.Ids.{is_artifact_id}

-- An instant, in milliseconds: what `Date.parse` reads from an ISO timestamp.
abbrev pub Timestamp : Type 0
Timestamp = ℕ

pub data ManagedTaskType : Type 0 where
  extract screenshot pdf : ManagedTaskType

abbrev pub task_type_eq : ManagedTaskType → ManagedTaskType → Bool
task_type_eq extract extract = true
task_type_eq screenshot screenshot = true
task_type_eq pdf pdf = true
task_type_eq _ _ = false

pub data ImageFormat : Type 0 where
  png jpeg : ImageFormat

-- Lengths in inches are given in thousandths.
pub data TaskRequest : Type 0 where
  extract_request : (selector : Option Text) (allow_experimental : Option Bool) → TaskRequest
  screenshot_request :
      (format : Option ImageFormat) (full_page : Option Bool) (quality : Option ℕ)
      (allow_experimental : Option Bool)
      → TaskRequest
  pdf_request :
      (landscape print_background : Option Bool) (width_inches height_inches : Option ℕ)
      (allow_experimental : Option Bool)
      → TaskRequest

abbrev pub request_type : TaskRequest → ManagedTaskType
request_type (extract_request s a) = extract
request_type (screenshot_request f p q a) = screenshot
request_type (pdf_request l p w h a) = pdf

abbrev is_png : Option ImageFormat → Bool
is_png (some jpeg) = false
is_png (some png) = true
is_png none = true

abbrev trim_option : Option Text → Option Text
trim_option none = none
trim_option (some t) = some (trim t)

-- `ManagedTaskCreateRequestSchema`; only the selector is changed by parsing.
unfoldable pub parse_request : TaskRequest → Option TaskRequest
parse_request (extract_request s a) =
    if all_option (λ t. length_within 1 512 (trim t)) s
    then some (extract_request (trim_option s) a)
    else none
parse_request (screenshot_request f p q a) =
    if all_option (λ n. leb 1 n && leb n 100) q && not (is_png f && is_some q)
    then some (screenshot_request f p q a)
    else none
parse_request (pdf_request l p w h a) =
    if all_option (λ n. leb 1000 n && leb n 17000) w
      && all_option (λ n. leb 1000 n && leb n 22000) h
    then some (pdf_request l p w h a)
    else none

abbrev fill_defaults : TaskRequest → TaskRequest
fill_defaults (extract_request s a) = extract_request s (some (or_default a false))
fill_defaults (screenshot_request f p q a) =
    screenshot_request (some (or_default f png)) (some (or_default p false)) q
      (some (or_default a false))
fill_defaults (pdf_request l p w h a) =
    pdf_request (some (or_default l false)) (some (or_default p true)) w h
      (some (or_default a false))

unfoldable pub normalize_request : TaskRequest → Option TaskRequest
normalize_request raw = elim (parse_request raw) [ none ↦ none | some r ↦ some (fill_defaults r) ]

pub data TaskStatus : Type 0 where
  queued running retry_pending succeeded failed cancelled : TaskStatus

pub data TaskFailureCode : Type 0 where
  task_invalid_state task_unsupported task_execution_failed task_timeout task_cancelled
        task_output_too_large artifact_storage_failed artifact_too_large
        internal_dependency_unavailable :
      TaskFailureCode

pub data MediaType : Type 0 where
  image_png image_jpeg application_pdf : MediaType

pub record PublicArtifact : Type 0 where
  pub id : Text
  pub media_type : MediaType
  pub byte_size : ℕ
  pub sha256 : Text
  pub created_at : Timestamp
  pub expires_at : Timestamp

abbrev pub max_artifact_bytes : ℕ
max_artifact_bytes = 64 * 1024 * 1024

unfoldable pub is_artifact : PublicArtifact → Bool
unfolding is_artifact_id all
is_artifact a =
    is_artifact_id a.id
    && leb a.byte_size max_artifact_bytes
    && nat_eq (length a.sha256) 64
    && all (λ c. is_hex c) a.sha256
    && ltb a.created_at a.expires_at

pub data TaskResult : Type 0 where
  extract_result : (title text : Text) → TaskResult
  screenshot_result : PublicArtifact → TaskResult
  pdf_result : PublicArtifact → TaskResult

abbrev pub result_type : TaskResult → ManagedTaskType
result_type (extract_result t x) = extract
result_type (screenshot_result a) = screenshot
result_type (pdf_result a) = pdf

abbrev pub max_extract_title_characters : ℕ
max_extract_title_characters = 8192

abbrev pub max_extract_text_characters : ℕ
max_extract_text_characters = 1048576

unfoldable pub is_result : TaskResult → Bool
unfolding is_artifact
is_result (extract_result title text) =
    leb (length title) max_extract_title_characters && leb (length text) max_extract_text_characters
is_result (screenshot_result a) = is_artifact a
is_result (pdf_result a) = is_artifact a
