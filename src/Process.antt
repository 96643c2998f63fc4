-- ===== src/Process.antt =====
-- The state of the gateway's process that its handlers share: the metadata of requests
-- (internal/requestmeta/metadata.go), the log (internal/middleware/logging.go and recovery.go), and
-- the measurements (internal/metrics/prometheus.go).
pub mod Samples
use gatex.Prelude.{ℕ, List, Option}
use gatex.Prelude.Text.{Text}
use gatex.Http.{Panic}
use gatex.RequestMeta.{Store}

pub data Level : Type 0 where
  level_info level_warn level_error : Level

-- The attributes of the event `request completed`, less its duration; an empty backend is not
-- written out.
pub record Entry : Type 0 where
  pub level : Level
  pub method : Text
  pub path : Text
  pub host : Text
  pub remote_addr : Text
  pub status : ℕ
  pub response_bytes : ℕ
  pub request_id : Text
  pub backend : Option Text

-- The labels `method`, `route` and `status`.
abbrev pub Labels : Type 0
Labels = Text × Text × Text

-- The three vectors of `Recorder`: a vector of counters is the list of its increments, newest first,
-- by their labels, and so is the histogram, whose observed durations are left out.
pub record Recorder : Type 0 where
  pub requests : List Labels
  pub request_errors : List Labels
  pub request_duration : List Labels

-- `random` and `now` are what the next identifier is made of.
pub record World : Type 0 where
  pub metadata : Store
  pub random : Option (List ℕ)
  pub now : ℕ
  pub completed : List Entry
  pub recovered : List Panic
  pub recorder : Recorder
