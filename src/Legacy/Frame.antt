-- ===== src/Legacy/Frame.antt =====
-- The frame of the handler of src/old.c around its answer: from the first byte to the headers, and from
-- the answer to the cleanup.
use wrensong_http_server.Prelude.{
  ℕ, suc, ◌+◌, ◌^◌, ◌<◌, ◌≤◌, ◌≡◌, ◌≢◌, append_assoc, refl, ap, ◌∙◌, Bool, true, false, List, [],
  ◌∷◌, ◌++◌, length, Option, none, some, if◌then◌else◌, arith, All,
}
use wrensong_http_server.Cstring.{Chars, NonZero, codes}
use wrensong_http_server.Exec.{done}
use wrensong_http_server.Bstring.{Bstring, Allocator, answer as granted, later, free_block, free}
use wrensong_http_server.Bstring.Contents.{Holds, read_string-filled}
use wrensong_http_server.Http.Message.{Method, unknown, known_http_methods, max_headers, Pointer}
use wrensong_http_server.Http.Spec.{request_text}
use wrensong_http_server.Http.Parse.{find_method, string_at}
use wrensong_http_server.Http.Headers.Round.{IsPlain}
use wrensong_http_server.Http.RequestLine.{LineIsPlain, Reads}
use wrensong_http_server.Legacy.World.{
  World, Action, Header, connection_freed, descriptor_closed, file_closed,
}
use wrensong_http_server.Legacy.Receive.{Request, Lines, lookup, parse, content_length, read_body}
use wrensong_http_server.Legacy.Respond.{Local, name_file, respond}
use wrensong_http_server.Legacy.Handler.{cleanup, check, serve, serve_if, receive, handle}
use wrensong_http_server.Legacy.Memory.{Gives, granted-Gives, later-Gives, append-Grown, after_two}
use wrensong_http_server.Legacy.Parsed.{Understood, parse-Understood, request_text-append}
use wrensong_http_server.Legacy.Filename.{Prefixed, restore_lem}

-- What the handler knows once the headers are read
pub record Arrived (w : World) (m : Allocator) (filename : Bstring) (fd : ℕ) (k : Method)
    (path : Chars) (hs : List (Chars × Chars)) (body : Chars) : Type 0 where
  pub request : Request
  pub goes_on : handle w m filename (some fd) ≡ serve w fd filename request
  pub memory_is : request.memory ≡ after_two m
  pub understood : Understood request k path hs body

receive_lem :
    (w : World) (fd : ℕ) (filename : Bstring) (m : Allocator) {bytes : List ℕ} {r : Request}
    → w.received ≡ some bytes
    → parse (bytes ++ (0 ∷ [])) m ≡ done (some r)
    → receive w fd filename m w.received ≡ serve w fd filename r
unfolding receive serve_if
receive_lem w fd filename m e h = rw (e, h)

handle_lem :
    (w : World) (fd : ℕ) (filename : Bstring) (m : Allocator) {bytes : List ℕ} {r : Request}
    → granted m.answers ≡ true
    → w.received ≡ some bytes
    → parse (bytes ++ (0 ∷ [])) (record { answers = later m.answers; live = m.live + 1 })
      ≡ done (some r)
    → handle w m filename (some fd) ≡ serve w fd filename r
unfolding handle
handle_lem w fd filename m g e h =
    rw (handle, g)
      (receive_lem w fd filename (record { answers = later m.answers; live = m.live + 1 }) e h)

pub handle-Arrived :
    (w : World) (m : Allocator) (filename : Bstring) (fd j : ℕ) (method path version : Chars)
    (hs : List (Chars × Chars)) (body : Chars) (k : Method)
    → LineIsPlain method path version
    → All IsPlain hs
    → length hs < max_headers
    → find_method known_http_methods method unknown ≡ k
    → k ≢ unknown
    → w.received ≡ some (request_text method path version hs body)
    → Gives (suc (suc j)) m.answers
    → Arrived w m filename fd k path hs (body ++ (0 ∷ []))
handle-Arrived w m filename fd j method path version hs body k line plain few is_k known there g =
    let m1 : Allocator = record { answers = later m.answers; live = m.live + 1 } in
    let second = granted-Gives j (later m.answers) (later-Gives (suc j) m.answers g) in
    let (r, parsing, left, u) =
      parse-Understood method path version hs (body ++ (0 ∷ [])) k m1 line plain few is_k known
        second in
    record {
      request = r;
      goes_on = handle_lem w fd filename m (granted-Gives (suc j) m.answers g) there (
          ap (λ z. parse z m1) (request_text-append method path version hs body (0 ∷ []))
          ∙ parsing);
      memory_is = left ∙ rw second refl;
      understood = u;
    }

-- The file name with a name behind it
pub name_file_lem :
    (k : ℕ) (xs name : Chars) (l : Local)
    → Holds l.filename xs
    → NonZero (xs ++ name)
    → length xs + length name + 1 < 2 ^ 32
    → Gives (suc k) l.memory.answers
    → (b : Bstring) × (m : Allocator) × (name_file name l
        ≡ done (record l { filename = b; memory = m }, xs ++ name))
      × Holds b (xs ++ name)
      × (m.live ≡ l.memory.live)
      × Gives k m.answers
unfolding name_file
name_file_lem k xs name l h nonzero small g =
    let a = append-Grown k l.memory l.filename xs name h small g in
    (
      a.to,
      a.memory,
      rw (a.ran, a.holds.layout, read_string-filled (xs ++ name) a.holds.spare nonzero) refl,
      a.holds,
      a.same_live,
      a.gives,
    )

-- The actions of the cleanup
abbrev pub closing : ℕ → Bool → List Action
closing fd file_open =
    connection_freed ∷ descriptor_closed fd ∷ (if file_open then file_closed ∷ [] else [])

abbrev pub blocks_of : Option Bstring → ℕ
blocks_of none = 0
blocks_of (some b) = 2

closing_lem :
    (done_before : List Action) (fd : ℕ) (file_open : Bool)
    → (if file_open
        then ((done_before ++ (connection_freed ∷ [])) ++ (descriptor_closed fd ∷ []))
          ++ (file_closed ∷ [])
        else (done_before ++ (connection_freed ∷ [])) ++ (descriptor_closed fd ∷ []))
      ≡ done_before ++ closing fd file_open
closing_lem done_before fd true = simp append_assoc
closing_lem done_before fd false = simp append_assoc

-- What the cleanup leaves, behind an answer that stands in `l`
pub record Closed (fd : ℕ) (filename : Bstring) (xs : Chars) (body : Option Bstring) (l : Local)
    : Type 0 where
  pub memory : Allocator
  pub restored : Bstring
  pub ran :
      cleanup fd filename.length true true body l
      ≡ done (record {
        memory = memory;
        filename = restored;
        actions = l.out.actions ++ closing fd l.file_open;
      })
  pub holds : Holds restored xs
  pub freed : memory.live + 2 + blocks_of body ≡ l.memory.live

cleanup-Closed :
    (fd : ℕ) (filename : Bstring) (xs : Chars) (body : Option Bstring) (l : Local)
    → Holds filename xs
    → Prefixed xs l.filename
    → 2 + blocks_of body ≤ l.memory.live
    → Closed fd filename xs body l
unfolding cleanup free
cleanup-Closed fd filename xs none l h p enough =
    let (c, cut, held) = restore_lem xs l.filename p in
    record {
      memory = free_block (free_block l.memory);
      restored = c;
      ran = rw (cleanup, h.counted, cut, closing_lem l.out.actions fd l.file_open) refl;
      holds = held;
      freed = omega (arith, enough);
    }
cleanup-Closed fd filename xs (some b) l h p enough =
    let (c, cut, held) = restore_lem xs l.filename p in
    record {
      memory = free_block (free_block (free_block (free_block l.memory)));
      restored = c;
      ran = rw (cleanup, h.counted, cut, closing_lem l.out.actions fd l.file_open) refl;
      holds = held;
      freed = omega (arith, enough);
    }

abbrev pub fresh_local : World → Bstring → Allocator → Local
fresh_local w filename m = record {
  memory = m;
  filename = filename;
  file_open = false;
  checked = true;
  out = record { actions = []; sends = w.sends; failed = true };
}

-- From the end of the headers on, given the body and the answer
serve_lem :
    (w : World) (fd n : ℕ) (filename : Bstring) (xs : Chars) (r : Request) (body : Option Bstring)
    (m : Allocator) (l : Local) {found : List Header}
    → r.lines.headers ≡ some found
    → content_length w.get_header r.lines ≡ done n
    → read_body r.lines r.memory n ≡ done (body, m)
    → respond w r body (fresh_local w filename m) ≡ done l
    → check l ≡ l
    → serve w fd filename r ≡ cleanup fd filename.length true true body l
unfolding serve
serve_lem w fd n filename xs r body m l is_found long read answering fine =
    rw (serve, long) (rw read (rw answering (rw (fine, is_found) refl)))

pub serve-Closed :
    (w : World) (fd n : ℕ) (filename : Bstring) (xs : Chars) (r : Request) (body : Option Bstring)
    (m : Allocator) (l : Local) {found : List Header}
    → Holds filename xs
    → r.lines.headers ≡ some found
    → content_length w.get_header r.lines ≡ done n
    → read_body r.lines r.memory n ≡ done (body, m)
    → respond w r body (fresh_local w filename m) ≡ done l
    → check l ≡ l
    → Prefixed xs l.filename
    → 2 + blocks_of body ≤ l.memory.live
    → (c : Closed fd filename xs body l) × (serve w fd filename r
        ≡ done (record {
          memory = c.memory;
          filename = c.restored;
          actions = l.out.actions ++ closing fd l.file_open;
        }))
serve-Closed w fd n filename xs r body m l h is_found long read answering fine p enough =
    let c = cleanup-Closed fd filename xs body l h p enough in
    (c, serve_lem w fd n filename xs r body m l is_found long read answering fine ∙ c.ran)

pub check_fine : (l : Local) → l.out.failed ≡ false → check l ≡ l
unfolding check
check_fine l fine = ground (arith, fine)

pub check_jumped : (l : Local) → l.checked ≡ false → check l ≡ l
unfolding check
check_jumped l jumped = rw (check, jumped) refl

pub no_length :
    (w : World) (l : Lines)
    → lookup w.get_header l (codes "content-length") ≡ none
    → content_length w.get_header l ≡ done 0
unfolding content_length
no_length w l h = rw (content_length, h)

pub string_at-Reads :
    (buf : List ℕ) (p : Pointer) (s : Chars) → Reads buf p (some s) → string_at buf p ≡ done s
string_at-Reads buf none s h = absurd h
string_at-Reads buf (some i) s h = h

pub lookup_lem :
    (get : World) (l : Lines) (name : Chars) (front body : List ℕ) {found : List Header}
    → l.buf ≡ front ++ body
    → l.headers ≡ some found
    → lookup get.get_header l name ≡ get.get_header (front ++ body) found name
unfolding lookup
lookup_lem get l name front body e h = rw (lookup, e, h)
