-- ===== src/Server.antt =====
-- src/server.c: the settings, the listener's event and the update event. `tconfig_new` and
-- `tconfig_read_file` have no definition in the repository: what they load is a parameter. So are the
-- answers of `accept` and `stat`, and `FD_SETSIZE`.
pub mod Written
pub mod Main
mod Tests
use wrensong_http_server.Prelude.{
  ℕ, Bool, true, false, not, List, [], ◌∷◌, ◌++◌, ltb, ◌==◌, if◌then◌else◌, Option, none, some,
}
use wrensong_http_server.Prelude.Int.{ℤ, pos, negsuc}
use wrensong_http_server.Cstring.{Chars, codes}
use wrensong_http_server.Exec.{Exec, done, ◌>>=◌}
use wrensong_http_server.Config.Table.{Table, get_entry_as_int, get_entry_as_bool}

-- The static variables that the configuration sets
pub record Settings : Type 0 where
  pub port : ℤ
  pub threads : ℤ
  pub ipv6 : Bool
  pub last_config_mod_time : ℕ
  pub the_config_path : Chars

abbrev pub initial_settings : Settings
initial_settings = record {
  port = pos 40000;
  threads = pos 16;
  ipv6 = false;
  last_config_mod_time = 0;
  the_config_path = [];
}

-- `read_config`, with the table that was loaded, or nothing if that failed, and the time of the file's
-- last change
unfoldable pub read_config : Option Table → ℕ → Chars → Settings → Exec Settings
read_config none mtime path s = done s
read_config (some t) mtime path s = do
  p ← get_entry_as_int t (codes "server") (codes "port") s.port
  n ← get_entry_as_int t (codes "server") (codes "threads") s.threads
  let six = get_entry_as_bool t (codes "server") (codes "ipv6") s.ipv6
  done (record {
    port = p.1;
    threads = n.1;
    ipv6 = six.1;
    last_config_mod_time = mtime;
    the_config_path = path;
  })

-- What the handlers ask of the code around them
pub data Action : Type 0 where
  descriptor_closed connection_handled : ℤ → Action
  filename_freed exited : Action

-- `do_accept`, with what `accept` returns
unfoldable pub do_accept : ℕ → ℤ → List Action
do_accept fd_setsize (negsuc n) = []
do_accept fd_setsize (pos fd) =
    if ltb fd_setsize fd then descriptor_closed (pos fd) ∷ [] else connection_handled (pos fd) ∷ []

-- `do_update`, with the time that `stat` finds: the reload is still to be written.
unfoldable pub do_update : ℕ → Settings → Settings
do_update mtime s = if not (s.last_config_mod_time == mtime) then s else s

is_open : ℤ → Bool
is_open (negsuc n) = not (n == 0)
is_open (pos n) = true

-- `cleanup_and_exit`, with the listener and whether there is a filename
unfoldable pub cleanup_and_exit : ℤ → Bool → List Action
unfolding is_open
cleanup_and_exit listener has_filename =
    (if is_open listener then descriptor_closed listener ∷ [] else [])
    ++ ((if has_filename then filename_freed ∷ [] else []) ++ (exited ∷ []))
