-- ===== src/Legacy/Tests.antt =====
-- Runs of the handler of src/old.c, and its theorems at concrete inputs.
mod Files
use wrensong_http_server.Prelude.{
  ℕ, ◌<◌, ◌≡◌, refl, true, false, List, [], ◌∷◌, ◌++◌, length, replicate, All, Option, none, some,
  arith,
}
use mathlib.Core.Path.{subst}
use wrensong_http_server.Cstring.{Chars, codes, same, same_upto, text_from, byte_at}
use wrensong_http_server.Exec.{done, fault, Ends, write_at}
use wrensong_http_server.Bstring.{Bstring, Allocator, malloc}
use wrensong_http_server.Bstring.Contents.{Holds}
use wrensong_http_server.Http.Message.{get, Pointer}
use wrensong_http_server.Http.Parse.{strsep, find_method, is_unknown}
use wrensong_http_server.Legacy.World.{
  short_read, missing, World, sent, connection_freed, descriptor_closed, Out, Header,
}
use wrensong_http_server.Legacy.Receive.{
  Request, Lines, parse, read_headers, lookup, content_length,
}
use wrensong_http_server.Legacy.Respond.{send_chunks, Local, echo, answer, respond, route, digits}
use wrensong_http_server.Legacy.Handler.{handle, cleanup, check, restore}
use wrensong_http_server.Legacy.Files.{FileSent, send_chunks-FileSent}
use wrensong_http_server.Legacy.BodyLength.{content_length-digits}
use wrensong_http_server.Legacy.Texts.{answer_echo_overflows}
use wrensong_http_server.Legacy.Filename.{Restored, handle-Restored}
use wrensong_http_server.Http.Spec.{request_text}
use wrensong_http_server.Http.Headers.Round.{IsPlain}
use wrensong_http_server.Http.RequestLine.{LineIsPlain}
use wrensong_http_server.Legacy.Parsed.{Understood, parse-Understood}
use wrensong_http_server.Legacy.Answered.{Answered}

abbrev no_header : List ℕ → List Header → Chars → Pointer
no_header b hs name = none

-- Everything succeeds, no file is there, and the client asks for `/`.
abbrev calm : World
calm = record {
  received = some (codes "GET / HTTP/1.1\r\nHost: h\r\n\r\n");
  opening = λ path. missing;
  opens_for_writing = true;
  seeks = true;
  tells = true;
  rewinds = true;
  reads = [];
  sends = [];
  get_header = no_header;
}

abbrev memory : Allocator
memory = record { answers = true ∷ true ∷ true ∷ []; live = 1 }

-- `d/` in a block of four bytes
abbrev directory : Bstring
directory = record { block = some 100 ∷ some 47 ∷ some 0 ∷ none ∷ []; length = 2; capacity = 4 }

directory-Holds : Holds directory (codes "d/")
directory-Holds = record {
  spare = none ∷ [];
  layout = refl;
  counted = refl;
  allocated = refl;
  small = ground arith;
}

handle_root :
    handle calm memory directory (some 5)
    ≡ done (record {
      memory = record { answers = true ∷ []; live = 1 };
      filename = directory;
      actions =
          sent (codes "HTTP/1.1 200 OK\r\n\r\n") ∷ connection_freed ∷ descriptor_closed 5 ∷ [];
    })
unfolding handle parse read_headers content_length respond answer route check cleanup restore
    find_method is_unknown same same_upto strsep write_at text_from byte_at
handle_root = refl

abbrev length_of_some : Option (List ℕ) → ℕ
length_of_some none = 0
length_of_some (some bytes) = length bytes

handle-Restored_example : Ends (Restored (codes "d/")) (handle calm memory directory (some 5))
handle-Restored_example =
    handle-Restored (codes "d/") calm memory directory 5 directory-Holds (ground arith)
      (λ bytes e. subst (λ o. length_of_some o < 1024) e (ground arith))

abbrev nothing_done : Out
nothing_done = record { actions = []; sends = []; failed = true }

-- The header has been sent.
abbrev header_sent : Out
header_sent = record { actions = sent (codes "HTTP/1.1") ∷ []; sends = []; failed = false }

-- Behind a file that has shrunk to nothing, the first read is short, and the buffer holds what it held.
send_chunks-FileSent_example : FileSent 3 (codes "abc") (short_read (λ i. b'x') ∷ []) header_sent
send_chunks-FileSent_example =
    send_chunks-FileSent 3 (codes "abc") (short_read (λ i. b'x') ∷ []) header_sent (ground arith) tt
      refl

short_read_sent :
    send_chunks 3 (codes "abc") (short_read (λ i. b'x') ∷ []) header_sent
    ≡ done
        (true, record header_sent { actions = sent (codes "HTTP/1.1") ∷ sent (codes "xxx") ∷ [] })
unfolding send_chunks
short_read_sent = refl

abbrev here : Local
here = record {
  memory = memory;
  filename = directory;
  file_open = false;
  checked = true;
  out = nothing_done;
}

abbrev request : Request
request = record {
  method = get;
  path = some 0;
  lines = record { buf = []; cursor = none; headers = some [] };
  memory = memory;
}

-- A client that announces 12 bytes
abbrev announced : Lines
announced = record { buf = codes "l: 12" ++ (0 ∷ []); cursor = none; headers = some [] }

abbrev at_twelve : List ℕ → List Header → Chars → Pointer
at_twelve b hs name = some 3

content_length-digits_example : content_length at_twelve announced ≡ done 12
unfolding lookup digits
content_length-digits_example =
    content_length-digits at_twelve announced (codes "l: ") [] 12 (ground arith) refl refl

answer_echo_overflows_example : answer calm request none (echo (replicate 970 b'x')) here ≡ fault
answer_echo_overflows_example =
    answer_echo_overflows calm request none (replicate 970 b'x') here (ground arith) (ground arith)

-- `GET /echo/hi HTTP/1.1` with one header
abbrev host : List (Chars × Chars)
host = (codes "Host", codes "h") ∷ []

abbrev asks_echo : World
asks_echo = record calm {
  received = some (request_text (codes "GET") (codes "/echo/hi") (codes "HTTP/1.1") host []);
}

echo-LineIsPlain : LineIsPlain (codes "GET") (codes "/echo/hi") (codes "HTTP/1.1")
echo-LineIsPlain = record {
  method_free = ground arith;
  path_free = ground arith;
  version_free = ground arith;
}

host-IsPlain : All IsPlain host
host-IsPlain = (
  record {
    nonempty = λ e. ground arith;
    no_colon = ground arith;
    name_in_line = ground arith;
    value_in_line = ground arith;
  },
  tt,
)

parse-Understood_example :
    (r : Request) × (parse
        (request_text (codes "GET") (codes "/echo/hi") (codes "HTTP/1.1") host [])
        memory
      ≡ done (some r))
    × (r.memory ≡ (malloc memory).1)
    × Understood r get (codes "/echo/hi") host []
unfolding find_method same
parse-Understood_example =
    parse-Understood (codes "GET") (codes "/echo/hi") (codes "HTTP/1.1") host [] get memory
      echo-LineIsPlain host-IsPlain (ground arith) refl (λ e. cc) refl
