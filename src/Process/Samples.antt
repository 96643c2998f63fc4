-- ===== src/Process/Samples.antt =====
-- A request, a connection and a state of the process, for the tests of the handlers.
use gatex.Prelude.{ℕ, false, [], none}
use gatex.Prelude.Text.{bytes}
use gatex.Http.{Request, Conn, Handler, returns, panics, write_header, write, other_panic}
use gatex.Process.{World}

abbrev pub fresh : Conn
fresh = record { header = []; informational = []; status = none; sent_header = []; body = [] }

abbrev pub roomy : Conn → ℕ
roomy c = 1000

abbrev pub plain : Request
plain = record {
  method = bytes "GET";
  host = bytes "a.example";
  path = bytes "/x";
  remote_addr = bytes "192.0.2.1:9";
  request_uri = bytes "/x";
  tls = false;
  has_body = false;
  header = [];
  metadata = none;
}

abbrev pub quiet : World
quiet = record {
  metadata = [];
  random = none;
  now = 255;
  completed = [];
  recovered = [];
  recorder = record { requests = []; request_errors = []; request_duration = [] };
}

-- It answers 404 with three bytes.
abbrev pub missing : {W : Type 0} → Handler W
missing r = write_header 404 (write (bytes "abc") (λ n failed. returns))

-- It panics before it has sent anything.
abbrev pub failing : {W : Type 0} → Handler W
failing r = panics (other_panic 7)
