-- ===== src/Legacy/Created.antt =====
-- A POST to a file, through the handler of src/old.c from the first byte to the last.
use wrensong_http_server.Prelude.{
  ℕ, suc, ◌+◌, ◌^◌, ◌<◌, ◌≡◌, refl, sym, ap, ◌∙◌, true, List, [], ◌∷◌, ◌++◌, length, some, arith,
  All,
}
use mathlib.Core.Path.{subst}
use wrensong_http_server.Cstring.{Chars, NonZero, NonZero-append, codes, same, text_from}
use wrensong_http_server.Exec.{done}
use wrensong_http_server.Bstring.{Bstring, Allocator, later}
use wrensong_http_server.Bstring.Contents.{Holds}
use wrensong_http_server.Http.Message.{post, max_headers}
use wrensong_http_server.Http.Spec.{request_text}
use wrensong_http_server.Http.Parse.{find_method}
use wrensong_http_server.Http.Parse.Pieces.{Free-NonZero, Free-back}
use wrensong_http_server.Http.Headers.Round.{IsPlain}
use wrensong_http_server.Http.RequestLine.{LineIsPlain}
use wrensong_http_server.Legacy.World.{World, Action, succeeds, Header}
use wrensong_http_server.Legacy.Receive.{read_body}
use wrensong_http_server.Legacy.Respond.{digits}
use wrensong_http_server.Legacy.Handler.{Left, handle}
use wrensong_http_server.Legacy.Memory.{Gives, later-Gives, after_two}
use wrensong_http_server.Legacy.Files.{wrote_bytes, Writes}
use wrensong_http_server.Legacy.BodyLength.{content_length_lem}
use wrensong_http_server.Legacy.Headers.{Named}
use wrensong_http_server.Legacy.Frame.{
  handle-Arrived, name_file_lem, closing, fresh_local, serve-Closed, lookup_lem,
}
use wrensong_http_server.Legacy.Body.{read_body-BodyRead}
use wrensong_http_server.Legacy.Posted.{posted, is_open, respond-post, post_opened-Posted}

-- What a request to make the file leaves
pub record Created (w : World) (m : Allocator) (filename : Bstring) (fd : ℕ) (xs name body : Chars)
    : Type 0 where
  pub left : Left
  pub writes : List Action
  pub ran : handle w m filename (some fd) ≡ done left
  pub only_writes : All Writes writes
  pub whole : wrote_bytes writes ≡ body
  pub actions :
      left.actions
      ≡ posted (xs ++ name) (w.opening (xs ++ name)) w.opens_for_writing writes
        ++ closing fd (is_open (w.opening (xs ++ name)) w.opens_for_writing)
  pub restored : Holds left.filename xs
  pub live : left.memory.live ≡ m.live

-- A well-formed POST for `/files/` and a name, with a body and a content length that is not 0, makes the
-- file behind the directory and is answered by 201; a file that is there is left alone and answered by
-- 409; and where `fopen` cannot make the file there is no answer. What is written is everything behind the
-- headers, whole and in order, whatever length is announced, before the answer is sent. In each case the
-- handler ends without a fault; then it frees its argument, and closes the descriptor once and the file if
-- it is open; the shared file name holds the directory again; and every block is freed. Memory is granted,
-- the answer is sent, and neither the name nor the body has a zero byte.
pub handle-Created :
    (w : World) (m : Allocator) (filename : Bstring) (fd : ℕ) (xs name version : Chars)
    (hs : List (Chars × Chars)) (body : Chars) (n : ℕ)
    → succeeds w.sends ≡ true
    → Holds filename xs
    → NonZero xs
    → length xs + length name + 1 < 2 ^ 32
    → NonZero body
    → length body + 1 < 2 ^ 32
    → suc n < 2 ^ 64
    → LineIsPlain (codes "POST") (codes "/files/" ++ name) version
    → All IsPlain hs
    → length hs < max_headers
    → w.received ≡ some (request_text (codes "POST") (codes "/files/" ++ name) version hs body)
    → ((front : List ℕ) (found : List Header)
        → Named front found hs
        → (i : ℕ) × (w.get_header (front ++ (body ++ (0 ∷ []))) found (codes "content-length")
            ≡ some i)
          × (text_from (front ++ (body ++ (0 ∷ []))) i ≡ done (digits 20 (suc n))))
    → Gives 6 m.answers
    → Created w m filename fd xs name body
unfolding find_method same
handle-Created w m filename fd xs name version hs body n sending h nonzero small body_nonzero
      body_small n_small line plain few there announced g =
    let a =
      handle-Arrived w m filename fd 4 (codes "POST") (codes "/files/" ++ name) version hs body post
        line plain few refl (λ e. cc) there g in
    let u = a.understood in
    let r = a.request in
    let (i, points, says) = announced u.front u.found u.named in
    let long =
      content_length_lem w.get_header r.lines (suc n) i n_small
        (lookup_lem w r.lines (codes "content-length") u.front (body ++ (0 ∷ [])) u.buf_is
            u.headers_are
          ∙ points)
        (ap (λ z. text_from z i) u.buf_is ∙ says) in
    let c =
      read_body-BodyRead 1 r.lines (after_two m) n u.front body u.buf_is u.at_body body_nonzero
        body_small (later-Gives 4 (later m.answers) (later-Gives 5 m.answers g)) in
    let (b, m3, named, held, same_live, _) =
      name_file_lem 0 xs name (fresh_local w filename c.memory) h
        (NonZero-append xs name nonzero
          (Free-NonZero b' ' name (Free-back b' ' (codes "/files/") name line.path_free)))
        small c.gives in
    let t =
      post_opened-Posted w c.to (xs ++ name) body (w.opening (xs ++ name)) b m3 sending c.holds in
    let answering =
      respond-post w r c.to (fresh_local w filename c.memory) (fresh_local w b m3) t.to name
        (xs ++ name) u.method_is u.path_is named t.ran in
    let t_live : t.to.memory.live ≡ m3.live = ap (λ (z : Allocator). z.live) t.same_memory in
    let (closed, serving) =
      serve-Closed w fd (suc n) filename xs r (some c.to) c.memory t.to h u.headers_are long
        (ap (λ z. read_body r.lines z (suc n)) a.memory_is ∙ c.ran) answering t.checks
        (name, subst (λ z. Holds z (xs ++ name)) (sym t.same_filename) held)
        (omega (arith, t_live, same_live, c.live)) in
    record {
      left = record {
        memory = closed.memory;
        filename = closed.restored;
        actions = t.to.out.actions ++ closing fd t.to.file_open;
      };
      writes = t.writes;
      ran = a.goes_on ∙ serving;
      only_writes = t.only_writes;
      whole = t.whole;
      actions =
          ap (λ z. z ++ closing fd t.to.file_open) t.actions
          ∙ ap
              (λ z.
                posted (xs ++ name) (w.opening (xs ++ name)) w.opens_for_writing t.writes
                ++ closing fd z)
              t.file_open;
      restored = closed.holds;
      live = omega (arith, closed.freed, t_live, same_live, c.live);
    }
