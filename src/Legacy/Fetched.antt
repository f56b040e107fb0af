-- ===== src/Legacy/Fetched.antt =====
-- A GET for a file, through the handler of src/old.c from the first byte to the last.
use wrensong_http_server.Prelude.{
  ℕ, zero, suc, ◌+◌, ◌/◌, ◌^◌, ◌≤◌, ltb, Bool-cases, inl, inr, All-append, append_assoc, ◌<◌, ◌≡◌,
  refl, sym, ap, ◌∙◌, Bool, true, false, List, [], ◌∷◌, ◌++◌, length, Option, none, some, arith,
  All, append-nil,
}
use mathlib.Core.Path.{subst}
use wrensong_http_server.Cstring.{Chars, strtoul, NonZero, NonZero-append, codes, same, same_upto}
use wrensong_http_server.Exec.{done}
use wrensong_http_server.Bstring.{Bstring, Allocator, later}
use wrensong_http_server.Bstring.Contents.{Holds}
use wrensong_http_server.Http.Message.{get, max_headers}
use wrensong_http_server.Http.Spec.{request_text}
use wrensong_http_server.Http.Parse.{find_method}
use wrensong_http_server.Http.Parse.Pieces.{Free-NonZero, Free-back}
use wrensong_http_server.Http.Headers.Round.{IsPlain}
use wrensong_http_server.Http.RequestLine.{LineIsPlain, Reads}
use wrensong_http_server.Legacy.World.{
  World, Action, Opening, found, missing, refused, reported, act, Header, whole_read,
}
use wrensong_http_server.Legacy.Receive.{Request, read_body}
use wrensong_http_server.Legacy.Respond.{
  jump, reply, Local, digits, get_named, route, is_get, answer, respond, get_opened, get_file,
  name_file,
}
use wrensong_http_server.Legacy.Handler.{Left, check, handle}
use wrensong_http_server.Legacy.Memory.{Gives, le-Gives, later-Gives, after_two}
use wrensong_http_server.Legacy.Files.{sent_bytes}
use wrensong_http_server.Legacy.Decimal.{strtoul-digits}
use wrensong_http_server.Legacy.Download.{
  Talks, header_text, not_found_text, get_opened-Downloaded, get_opened_missing,
}
use wrensong_http_server.Legacy.Headers.{Named}
use wrensong_http_server.Legacy.Frame.{
  handle-Arrived, name_file_lem, closing, fresh_local, serve-Closed, check_fine, check_jumped,
  no_length, lookup_lem, string_at-Reads,
}

abbrev pub IsDigit : ℕ → Type 0
IsDigit c = (b'0' ≤ c) × (c ≤ b'9')

-- What the client is told, by what `fopen` finds: the file behind a header that announces its length, in decimal
-- digits that `strtoul` reads back
abbrev pub Tells : Opening → Chars → Type 0
Tells (found content) s =
    (n : Chars) × All IsDigit n
    × (strtoul n ≡ some (length content))
    × (s
        ≡ codes "HTTP/1.1 200 OK\r\nContent-Type: application/octet-stream\r\nContent-Length: "
          ++ (n ++ (codes "\r\n\r\n" ++ content)))
Tells missing s = s ≡ codes "HTTP/1.1 404 Not Found\r\n\r\n"
Tells refused s = s ≡ []

digits-IsDigit : (fuel n : ℕ) → All IsDigit (digits fuel n)
unfolding digits
digits-IsDigit zero n = tt
digits-IsDigit (suc fuel) n = elim (Bool-cases (ltb n 10)) [
  | inl one ↦ rw one ((omega arith, omega arith), tt)
  | inr more ↦ rw more (
      All-append _ (digits fuel (n / 10)) _ (digits-IsDigit fuel (n / 10))
        ((omega arith, omega arith), tt))
]

found-Tells :
    (content s : Chars)
    → length content < 2 ^ 63
    → s ≡ header_text (length content) ++ content
    → Tells (found content) s
found-Tells content s short e =
    let n = digits 20 (length content) in
    (
      n,
      digits-IsDigit 20 _,
      strtoul-digits (length content) (omega (arith, short)),
      e
          ∙ ap
              (λ z.
                codes
                  "HTTP/1.1 200 OK\r\nContent-Type: application/octet-stream\r\nContent-Length: "
                ++ z)
              (append_assoc (digits 20 (length content)) (codes "\r\n\r\n") content),
    )

abbrev pub is_there : Opening → Bool
is_there (found content) = true
is_there _ = false

-- The blocks that are never freed
abbrev pub lost : Opening → ℕ
lost missing = 2
lost _ = 0

abbrev pub IsShort : Opening → Type 0
IsShort (found content) = length content < 2 ^ 63
IsShort _ = Unit {0}

-- How `get_opened` leaves the handler
record Told (w : World) (o : Opening) (l : Local) : Type 0 where
  to : Local
  ran : get_opened w o l ≡ done to
  says : Tells o (sent_bytes to.out.actions)
  talks : All Talks to.out.actions
  file_open : to.file_open ≡ is_there o
  same_filename : to.filename ≡ l.filename
  live : to.memory.live ≡ l.memory.live + lost o
  checks : check to ≡ to

module _ (w : World) (seeks : w.seeks ≡ true) (tells : w.tells ≡ true) (rewinds : w.rewinds ≡ true)
    (reading : All (λ r. r ≡ whole_read) w.reads) (sending : All (λ b. b ≡ true) w.sends) where
  get_opened-Told :
      (o : Opening) (filename : Bstring) (m : Allocator)
      → IsShort o
      → Gives 7 m.answers
      → Told w o (fresh_local w filename m)
  unfolding get_opened
  get_opened-Told (found content) filename m short g =
      let d =
        get_opened-Downloaded w content (fresh_local w filename m) seeks tells rewinds reading g
          short tt sending in
      record {
        to = d.to;
        ran = d.ran;
        says = found-Tells content _ short d.sends;
        talks = d.fine.talks;
        file_open = d.file_open;
        same_filename = d.same_filename;
        live = omega (arith, d.balanced);
        checks = check_fine d.to d.fine.not_failed;
      }
  get_opened-Told missing filename m short g =
      let l = fresh_local w filename m in
      let (m', ran, live) = get_opened_missing w l (le-Gives 3 7 m.answers (omega arith) g) in
      record {
        to = jump (reply not_found_text (record l { memory = m' }));
        ran = ran;
        says = append-nil not_found_text;
        talks = (tt, tt);
        file_open = refl;
        same_filename = refl;
        live = live;
        checks = check_jumped _ refl;
      }
  get_opened-Told refused filename m short g = record {
    to = record (fresh_local w filename m) {
      out = act reported (fresh_local w filename m).out;
      checked = false;
    };
    ran = refl;
    says = refl;
    talks = (tt, tt);
    file_open = refl;
    same_filename = refl;
    live = omega arith;
    checks = check_jumped _ refl;
  }

-- The route of a path of a file
route-get : (name : Chars) → route get (codes "/files/" ++ name) ≡ get_named name
unfolding route is_get same same_upto
route-get name = refl

respond-get :
    (w : World) (r : Request) (body : Option Bstring) (l l1 l2 : Local) (name path : Chars)
    → r.method ≡ get
    → Reads r.lines.buf r.path (some (codes "/files/" ++ name))
    → name_file name l ≡ done (l1, path)
    → get_opened w (w.opening path) l1 ≡ done l2
    → respond w r body l ≡ done l2
unfolding respond answer get_file
respond-get w r body l l1 l2 name path is_get there named opening =
    rw
      (
        respond,
        string_at-Reads r.lines.buf r.path (codes "/files/" ++ name) there,
        is_get,
        route-get name,
      )
      (rw named opening)

-- What a request for the file leaves
pub record Fetched (w : World) (m : Allocator) (filename : Bstring) (fd : ℕ) (xs : Chars)
    (o : Opening) : Type 0 where
  pub left : Left
  pub before : List Action
  pub ran : handle w m filename (some fd) ≡ done left
  pub actions : left.actions ≡ before ++ closing fd (is_there o)
  pub talks : All Talks before
  pub says : Tells o (sent_bytes before)
  pub restored : Holds left.filename xs
  pub live : left.memory.live ≡ m.live + lost o

-- A well-formed GET for `/files/` and a name, with no content length, is answered by what `fopen` finds
-- at the name behind the directory: a file is sent whole behind a header with its length in decimal digits, a missing one
-- is answered by 404 with no body, and any other failure by nothing. In each case the handler ends without a fault;
-- behind everything that it sent or reported it frees its argument, and closes the descriptor once and
-- the file if it is open; the shared file name holds the directory again; and every block is freed but,
-- where the file is missing, the two of the answer. Memory is granted, the file can be measured and
-- read and has fewer than 2^63 bytes, and `send` succeeds.
pub handle-Fetched :
    (w : World) (m : Allocator) (filename : Bstring) (fd : ℕ) (xs name version : Chars)
    (hs : List (Chars × Chars)) (body : Chars)
    → w.seeks ≡ true
    → w.tells ≡ true
    → w.rewinds ≡ true
    → All (λ r. r ≡ whole_read) w.reads
    → All (λ b. b ≡ true) w.sends
    → Holds filename xs
    → NonZero xs
    → length xs + length name + 1 < 2 ^ 32
    → LineIsPlain (codes "GET") (codes "/files/" ++ name) version
    → All IsPlain hs
    → length hs < max_headers
    → w.received ≡ some (request_text (codes "GET") (codes "/files/" ++ name) version hs body)
    → ((front : List ℕ) (found : List Header)
        → Named front found hs
        → w.get_header (front ++ (body ++ (0 ∷ []))) found (codes "content-length") ≡ none)
    → IsShort (w.opening (xs ++ name))
    → Gives 10 m.answers
    → Fetched w m filename fd xs (w.opening (xs ++ name))
unfolding find_method same read_body
handle-Fetched w m filename fd xs name version hs body seeks tells rewinds reading sending h nonzero
      small line plain few there none_said short g =
    let a =
      handle-Arrived w m filename fd 8 (codes "GET") (codes "/files/" ++ name) version hs body get
        line plain few refl (λ e. cc) there g in
    let u = a.understood in
    let r = a.request in
    let m2 = after_two m in
    let l0 = fresh_local w filename m2 in
    let (b, m3, named, held, same_live, g3) =
      name_file_lem 7 xs name l0 h
        (NonZero-append xs name nonzero
          (Free-NonZero b' ' name (Free-back b' ' (codes "/files/") name line.path_free)))
        small (later-Gives 8 (later m.answers) (later-Gives 9 m.answers g)) in
    let t =
      get_opened-Told w seeks tells rewinds reading sending (w.opening (xs ++ name)) b m3 short
        g3 in
    let answering =
      respond-get w r none l0 (fresh_local w b m3) t.to name (xs ++ name) u.method_is u.path_is
        named t.ran in
    let (c, closed) =
      serve-Closed w fd 0 filename xs r none r.memory t.to h u.headers_are
        (no_length w r.lines (
          lookup_lem w r.lines (codes "content-length") u.front (body ++ (0 ∷ [])) u.buf_is
            u.headers_are
          ∙ none_said u.front u.found u.named))
        refl (ap (λ z. respond w r none (fresh_local w filename z)) a.memory_is ∙ answering)
        t.checks (name, (subst (λ z. Holds z (xs ++ name)) (sym t.same_filename) held))
        (omega (arith, t.live, same_live)) in
    record {
      left = record {
        memory = c.memory;
        filename = c.restored;
        actions = t.to.out.actions ++ closing fd t.to.file_open;
      };
      before = t.to.out.actions;
      ran = a.goes_on ∙ closed;
      actions = ap (λ z. t.to.out.actions ++ closing fd z) t.file_open;
      talks = t.talks;
      says = t.says;
      restored = c.holds;
      live = omega (arith, c.freed, t.live, same_live);
    }
