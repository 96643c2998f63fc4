-- ===== src/Http/Tests.antt =====
-- A small handler, run.
use gatex.Prelude.{◌≡◌, refl, ℕ, [], ◌∷◌, none, some}
use gatex.Prelude.Text.{bytes}
use gatex.Http.{
  Program, returns, panics, write_header, write, on_exit, Conn, run, conn_write_header, conn_append,
  taken, take_bytes, other_panic,
}

abbrev fresh : Conn
fresh = record { header = []; informational = []; status = none; sent_header = []; body = [] }

abbrev late : Program ℕ
late = write_header 103 (write (bytes "abc") (λ n e. write_header 500 (panics (other_panic 1))))

late_outcome : run (λ c. 2) (on_exit (λ p. returns) late) fresh 0 ≡ record {
  panic = none;
  conn = record fresh { informational = 103 ∷ []; status = some 200; body = bytes "ab" };
  world = 0;
}
unfolding run on_exit conn_write_header conn_append taken take_bytes
late_outcome = refl
