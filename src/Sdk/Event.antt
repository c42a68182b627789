-- ===== src/Sdk/Event.antt =====
-- crates/thermite-sdk/src/event.rs: the payload that the client sends. An id is its number, and
-- a map is an association list in the order of its insertions.
use thermite_rs.Prelude.{Bool, List, Option, Text, [], codes, false, none, some, true, ℕ, ◌&&◌, ◌∷◌}
use thermite_rs.Json.{Value}

pub data Level : Type 0 where
  fatal : Level
  error : Level
  warning : Level
  info : Level
  debug : Level

pub record Values (A : Type 0) : Type 0 where
  pub values : List A

unfoldable pub one : {A : Type 0} → A → Values A
one value = record { values = value ∷ [] }

pub record LogEntry : Type 0 where
  pub message : Text

pub record User : Type 0 where
  pub id : Option Text
  pub username : Option Text
  pub email : Option Text

abbrev pub is_none : {A : Type 0} → Option A → Bool
is_none none = true
is_none (some x) = false

unfoldable pub is_empty_user : User → Bool
is_empty_user user = is_none user.id && is_none user.username && is_none user.email

pub record Frame : Type 0 where
  pub function : Option Text
  pub filename : Option Text
  pub abs_path : Option Text
  pub lineno : Option ℕ
  pub colno : Option ℕ
  pub in_app : Bool
  pub context_line : Option Text
  pub pre_context : List Text
  pub post_context : List Text

pub record Stacktrace : Type 0 where
  pub frames : List Frame

pub record Mechanism : Type 0 where
  pub type : Text
  pub handled : Option Bool
  pub synthetic : Option Bool

pub record Exception : Type 0 where
  pub type : Text
  pub value : Text
  pub module_name : Option Text
  pub stacktrace : Option Stacktrace
  pub mechanism : Option Mechanism

pub record Breadcrumb : Type 0 where
  pub timestamp : ℕ
  pub type : Text
  pub category : Option Text
  pub level : Level
  pub message : Option Text
  pub data_fields : List (Text × Value)

unfoldable pub new_breadcrumb : ℕ → Text → Breadcrumb
new_breadcrumb now message = record {
  timestamp = now;
  type = codes "default";
  category = none;
  level = info;
  message = some message;
  data_fields = [];
}

pub record Event : Type 0 where
  pub event_id : ℕ
  pub timestamp : ℕ
  pub platform : Text
  pub level : Level
  pub logger : Option Text
  pub release : Option Text
  pub environment : Option Text
  pub server_name : Option Text
  pub transaction : Option Text
  pub logentry : Option LogEntry
  pub exception : Option (Values Exception)
  pub fingerprint : Option (List Text)
  pub user : Option User
  pub tags : List (Text × Text)
  pub contexts : List (Text × Value)
  pub breadcrumbs : Option (Values Breadcrumb)
  pub extra : List (Text × Value)

-- An event with a fresh id, made now.
unfoldable pub new_event : ℕ → ℕ → Event
new_event id now = record {
  event_id = id;
  timestamp = now;
  platform = codes "rust";
  level = error;
  logger = none;
  release = none;
  environment = none;
  server_name = none;
  transaction = none;
  logentry = none;
  exception = none;
  fingerprint = none;
  user = none;
  tags = [];
  contexts = [];
  breadcrumbs = none;
  extra = [];
}

unfoldable pub message_event : ℕ → ℕ → Text → Level → Event
unfolding new_event
message_event id now message level = record (new_event id now) {
  level = level;
  logentry = some (record { message = message });
}

unfoldable pub new_exception : Text → Text → Exception
new_exception type value = record {
  type = type;
  value = value;
  module_name = none;
  stacktrace = none;
  mechanism = none;
}

unfoldable pub exception_event : ℕ → ℕ → Exception → Event
unfolding new_event one
exception_event id now exception = record (new_event id now) { exception = some (one exception) }
