-- ===== src/Legacy/Empty.antt =====
-- A request to create a file with no body.
use wrensong_http_server.Prelude.{
  ℕ, ◌+◌, ◌^◌, ◌<◌, ◌≡◌, ◌≢◌, refl, ◌∙◌, true, List, [], ◌∷◌, ◌++◌, length, some, none, All,
}
use wrensong_http_server.Cstring.{Chars, NonZero, NonZero-append, codes, same}
use wrensong_http_server.Exec.{done, fault}
use wrensong_http_server.Bstring.{Bstring, Allocator, later}
use wrensong_http_server.Bstring.Contents.{Holds}
use wrensong_http_server.Http.Message.{post, max_headers}
use wrensong_http_server.Http.Spec.{request_text}
use wrensong_http_server.Http.Parse.{find_method}
use wrensong_http_server.Http.Parse.Pieces.{Free-NonZero, Free-back}
use wrensong_http_server.Http.Headers.Round.{IsPlain}
use wrensong_http_server.Http.RequestLine.{LineIsPlain, Reads}
use wrensong_http_server.Legacy.World.{Opening, found, missing, refused, World, Header}
use wrensong_http_server.Legacy.Receive.{Request, content_length, read_body}
use wrensong_http_server.Legacy.Respond.{
  Local, name_file, write_body, post_new, post_opened, post_file, answer, respond, is_post,
}
use wrensong_http_server.Legacy.Handler.{serve, handle}
use wrensong_http_server.Legacy.Headers.{Named}
use wrensong_http_server.Legacy.Memory.{Gives, later-Gives}
use wrensong_http_server.Legacy.Frame.{
  handle-Arrived, name_file_lem, fresh_local, no_length, lookup_lem, string_at-Reads,
}
use wrensong_http_server.Legacy.Posted.{route-post}

post_opened_bare :
    (w : World) (path : Chars) (o : Opening) (l : Local)
    → ((content : Chars) → o ≢ found content)
    → w.opens_for_writing ≡ true
    → post_opened w none path o l ≡ fault
unfolding post_opened post_new write_body
post_opened_bare w path (found content) l h e = absurd (h content refl)
post_opened_bare w path missing l h e = rw e
post_opened_bare w path refused l h e = rw e

respond_bare :
    (w : World) (r : Request) (l l1 : Local) (name path : Chars)
    → r.method ≡ post
    → Reads r.lines.buf r.path (some (codes "/files/" ++ name))
    → name_file name l ≡ done (l1, path)
    → ((content : Chars) → w.opening path ≢ found content)
    → w.opens_for_writing ≡ true
    → respond w r none l ≡ fault
unfolding respond answer post_file
respond_bare w r l l1 name path is_post there named new opens =
    rw
      (
        respond,
        string_at-Reads r.lines.buf r.path (codes "/files/" ++ name) there,
        is_post,
        route-post name,
      )
      (rw named (post_opened_bare w path (w.opening path) l1 new opens))

serve_bare :
    (w : World) (fd : ℕ) (filename : Bstring) (r : Request)
    → content_length w.get_header r.lines ≡ done 0
    → respond w r none (fresh_local w filename r.memory) ≡ fault
    → serve w fd filename r ≡ fault
unfolding serve read_body
serve_bare w fd filename r long answering = rw (serve, long) (rw answering refl)

-- A well-formed POST for `/files/` and a name that says nothing of a content length makes the handler read
-- the length of a body through a null pointer, where the file is not there yet and can be written, and memory
-- is granted.
pub handle_bare_post :
    (w : World) (m : Allocator) (filename : Bstring) (fd : ℕ) (xs name version : Chars)
    (hs : List (Chars × Chars)) (body : Chars)
    → Holds filename xs
    → NonZero xs
    → length xs + length name + 1 < 2 ^ 32
    → LineIsPlain (codes "POST") (codes "/files/" ++ name) version
    → All IsPlain hs
    → length hs < max_headers
    → w.received ≡ some (request_text (codes "POST") (codes "/files/" ++ name) version hs body)
    → ((front : List ℕ) (found : List Header)
        → Named front found hs
        → w.get_header (front ++ (body ++ (0 ∷ []))) found (codes "content-length") ≡ none)
    → ((content : Chars) → w.opening (xs ++ name) ≢ found content)
    → w.opens_for_writing ≡ true
    → Gives 3 m.answers
    → handle w m filename (some fd) ≡ fault
unfolding find_method same
handle_bare_post w m filename fd xs name version hs body h nonzero small line plain few there
      none_said new opens g =
    let a =
      handle-Arrived w m filename fd 1 (codes "POST") (codes "/files/" ++ name) version hs body post
        line plain few refl (λ e. cc) there g in
    let u = a.understood in
    let r = a.request in
    let (b, m3, named, _, _, _) =
      name_file_lem 0 xs name (fresh_local w filename r.memory) h
        (NonZero-append xs name nonzero
          (Free-NonZero b' ' name (Free-back b' ' (codes "/files/") name line.path_free)))
        small (rw a.memory_is (later-Gives 1 (later m.answers) (later-Gives 2 m.answers g))) in
    a.goes_on
    ∙ serve_bare w fd filename r
        (no_length w r.lines (
          lookup_lem w r.lines (codes "content-length") u.front (body ++ (0 ∷ [])) u.buf_is
            u.headers_are
          ∙ none_said u.front u.found u.named))
        (respond_bare w r (fresh_local w filename r.memory) _ name (xs ++ name) u.method_is
          u.path_is named new opens)
