-- ===== src/Daemon/Writer.antt =====
-- The part of http.ResponseWriter that pkg/daemon/server.go uses.
use drover_runner.Base.{Text, ◌++◌, ℕ, [], Option, none, some}

-- http.ResponseWriter: the header Content-Type that is set, and what was sent. WriteHeader sends
-- the header as it then is, once; Write sends status 200 first if nothing was sent.
pub record Writer : Type 0 where
  pub content_type : Option Text
  pub sent : Option (ℕ × Option Text)
  pub body : Text

abbrev pub fresh_writer : Writer
fresh_writer = record { content_type = none; sent = none; body = [] }

unfoldable pub set_content_type : Text → Writer → Writer
set_content_type t w = record w { content_type = some t }

unfoldable pub write_header : ℕ → Writer → Writer
write_header code w = elim w.sent [
  | none ↦ record w { sent = some (code, w.content_type) }
  | some s ↦ w
]

unfoldable pub write : Text → Writer → Writer
unfolding write_header
write t w = let w' = write_header 200 w in record w' { body = w'.body ++ t }
