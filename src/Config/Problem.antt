-- ===== src/Config/Problem.antt =====
-- The error reports of lib/tconfig.c.
use wrensong_http_server.Prelude.{Bool, not, ◌&&◌, List, [], ◌∷◌, ◌++◌, if◌then◌else◌}
use wrensong_http_server.Cstring.{Chars}
use wrensong_http_server.Exec.{Exec, done, quit}

-- The messages that are handed to `_ini_error`, with the text that they quote.
pub data Problem : Type 0 where
  missing_bracket missing_equals : Chars → Problem
  read_error open_error write_error : Problem

-- Whether `on_error` is set, and `exit_on_error`
pub record Policy : Type 0 where
  pub has_handler : Bool
  pub exit_on_error : Bool

-- `ini_set_error_exit`
unfoldable pub set_error_exit : Bool → Policy → Policy
set_error_exit b e = record e { exit_on_error = b }

-- `ini_set_error_handler`, told whether the handler is a null pointer
unfoldable pub set_error_handler : Bool → Policy → Policy
set_error_handler b e = record e { has_handler = b }

-- `_ini_error`, behind the problems reported so far
unfoldable pub raise : Policy → Problem → List Problem → Exec (List Problem)
raise e p ps = if not e.has_handler && e.exit_on_error then quit else done (ps ++ (p ∷ []))
