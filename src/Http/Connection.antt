-- ===== src/Http/Connection.antt =====
-- The callbacks of src/http.c around the parser. The calls of libevent, of the hash table, of the
-- thread pool and of `free` are recorded in their order; their code is not in the repository's own
-- part.
pub mod Served
mod Tests
use wrensong_http_server.Prelude.{
  ℕ, Bool, true, false, List, [], ◌∷◌, ◌++◌, length, replicate, Option, none, some,
}
use wrensong_http_server.Prelude.Int.{ℤ, negsuc}
use wrensong_http_server.Exec.{Exec, done, quit, fault, ◌>>=◌, memcpy}
use wrensong_http_server.Http.Message.{Request, no_request}
use wrensong_http_server.Http.Parse.{Outcome, unknown_method, parsed, parse}

-- What the handlers ask of the code around them.
pub data Effect : Type 0 where
  hash_added hash_deleted : ℕ → Effect
  bufferevent_opened : ℤ → Effect
  callbacks_set reading_enabled : Effect
  enqueued : ℕ → Effect
  buffer_freed bufferevent_freed connection_freed : Effect

-- `HttpConnection`, without `addr_str`, `apps` and `slot`, which no code uses; `sockaddr_storage` has
-- 128 bytes.
pub record Connection : Type 0 where
  pub fd : ℕ
  pub addr : List ℕ
  pub addr_len : ℕ
  pub request : Request
  pub has_bufferevent : Bool

closed : ℕ → Bool → List Effect
closed fd true = hash_deleted fd ∷ bufferevent_freed ∷ connection_freed ∷ []
closed fd false = []

finish : ℕ → Outcome → List Effect
unfolding closed
finish fd unknown_method = []
finish fd (parsed p) = buffer_freed ∷ closed fd p.closing

-- `_handle_connection`: the request is parsed into a local copy.
unfoldable pub handle_connection : Option Connection → Exec (List Effect)
unfolding finish
handle_connection none = quit
handle_connection (some c) = do o ← parse c.request; done (finish c.fd o)

-- `_http_read`: `evbuffer_copyout` copies the input and leaves it where it is. The flag is the
-- answer of `malloc`, which the code does not look at.
unfoldable pub http_read : Bool → Connection → List ℕ → Exec (Connection × List Effect)
http_read got c [] = done (c, [])
http_read false c (x ∷ input) = fault
http_read true c (x ∷ input) = done (
  record c {
    request = record (c.request) {
      buffer = some ((x ∷ input) ++ (0 ∷ []));
      buffer_len = length (x ∷ input);
    };
    has_bufferevent = true;
  },
  enqueued c.fd ∷ [],
)

-- `_http_event`
unfoldable pub http_event : Connection → Connection
http_event c = c

-- `http_handle_connection`, with the bytes of the address and the answer of `calloc`
unfoldable pub http_handle_connection : Bool → ℕ → List ℕ → Exec (Connection × List Effect)
http_handle_connection false fd arg = fault
http_handle_connection true fd arg = do
  addr ← memcpy (replicate 128 0) 0 arg
  done (
    record {
      fd = fd;
      addr = addr;
      addr_len = length arg;
      request = no_request;
      has_bufferevent = false;
    },
    hash_added fd ∷ bufferevent_opened (negsuc 0) ∷ callbacks_set ∷ reading_enabled ∷ [],
  )
