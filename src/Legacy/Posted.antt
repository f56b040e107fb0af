-- ===== src/Legacy/Posted.antt =====
-- What the answer of src/old.c to a POST for a file does.
use wrensong_http_server.Prelude.{
  ◌≡◌, refl, sym, Bool, true, false, List, [], ◌∷◌, ◌++◌, some, All, Bool-cases, inl, inr,
}
use wrensong_http_server.Cstring.{Chars, codes, same, same_upto}
use wrensong_http_server.Exec.{Exec, done}
use wrensong_http_server.Bstring.{Bstring, Allocator}
use wrensong_http_server.Bstring.Contents.{Holds}
use wrensong_http_server.Http.Message.{post}
use wrensong_http_server.Http.RequestLine.{Reads}
use wrensong_http_server.Legacy.World.{
  World, Action, Opening, found, missing, refused, sent, created, reported, succeeds, act,
}
use wrensong_http_server.Legacy.Receive.{Request}
use wrensong_http_server.Legacy.Respond.{
  Local, reply, jump, give_up, post_named, route, is_get, is_post, answer, respond, post_new,
  post_opened, post_file, name_file,
}
use wrensong_http_server.Legacy.Handler.{check}
use wrensong_http_server.Legacy.Files.{wrote_bytes, Writes, write_body-BodyWritten}
use wrensong_http_server.Legacy.Frame.{fresh_local, check_fine, check_jumped, string_at-Reads}

-- What is done to make a file, where it can be made or not, with the writes of the body
abbrev pub made : Chars → Bool → List Action → List Action
made path true writes =
    created path ∷ (writes ++ (sent (codes "HTTP/1.1 201 Created\r\n\r\n") ∷ []))
made path false writes = reported ∷ []

-- What is done for a POST, by what `fopen` finds and whether it can make the file
abbrev pub posted : Chars → Opening → Bool → List Action → List Action
posted path (found content) opens writes = sent (codes "HTTP/1.1 409 Conflict\r\n\r\n") ∷ []
posted path missing opens writes = made path opens writes
posted path refused opens writes = made path opens writes

abbrev pub is_open : Opening → Bool → Bool
is_open (found content) opens = true
is_open missing opens = opens
is_open refused opens = opens

-- How an answer to a POST leaves the handler
pub record Posted (run : Exec Local) (l : Local) (body : Chars) (does : List Action → List Action)
    (opened : Bool) : Type 0 where
  pub to : Local
  pub writes : List Action
  pub ran : run ≡ done to
  pub only_writes : All Writes writes
  pub whole : wrote_bytes writes ≡ body
  pub actions : to.out.actions ≡ does writes
  pub file_open : to.file_open ≡ opened
  pub same_filename : to.filename ≡ l.filename
  pub same_memory : to.memory ≡ l.memory
  pub checks : check to ≡ to

-- The route of a path of a file
pub route-post : (name : Chars) → route post (codes "/files/" ++ name) ≡ post_named name
unfolding route is_get is_post same same_upto
route-post name = refl

pub respond-post :
    (w : World) (r : Request) (b : Bstring) (l l1 l2 : Local) (name path : Chars)
    → r.method ≡ post
    → Reads r.lines.buf r.path (some (codes "/files/" ++ name))
    → name_file name l ≡ done (l1, path)
    → post_opened w (some b) path (w.opening path) l1 ≡ done l2
    → respond w r (some b) l ≡ done l2
unfolding respond answer post_file
respond-post w r b l l1 l2 name path is_post there named opening =
    rw
      (
        respond,
        string_at-Reads r.lines.buf r.path (codes "/files/" ++ name) there,
        is_post,
        route-post name,
      )
      (rw named opening)

post_new-Posted :
    (w : World) (b : Bstring) (path body : Chars) (filename : Bstring) (m : Allocator)
    → succeeds w.sends ≡ true
    → Holds b body
    → Posted
        (post_new w (some b) path (fresh_local w filename m))
        (fresh_local w filename m)
        body
        (made path w.opens_for_writing)
        w.opens_for_writing
unfolding post_new
post_new-Posted w b path body filename m sending h =
    let l = fresh_local w filename m in
    let l1 = record l { file_open = true; out = act (created path) l.out } in
    let v = write_body-BodyWritten b body l1 h in
    elim (Bool-cases w.opens_for_writing) [
      | inl can ↦ record {
        to =
            reply (codes "HTTP/1.1 201 Created\r\n\r\n")
              (record l1 { out = record l1.out { actions = l1.out.actions ++ v.writes } });
        writes = v.writes;
        ran = rw can (rw v.ran refl);
        only_writes = v.only_writes;
        whole = v.whole;
        actions = rw can refl;
        file_open = sym can;
        same_filename = refl;
        same_memory = refl;
        checks = check_fine _ (rw sending refl);
      }
      | inr cannot ↦ record {
        to = give_up l;
        writes = v.writes;
        ran = rw cannot refl;
        only_writes = v.only_writes;
        whole = v.whole;
        actions = rw cannot refl;
        file_open = sym cannot;
        same_filename = refl;
        same_memory = refl;
        checks = check_jumped _ refl;
      }
    ]

pub post_opened-Posted :
    (w : World) (b : Bstring) (path body : Chars) (o : Opening) (filename : Bstring) (m : Allocator)
    → succeeds w.sends ≡ true
    → Holds b body
    → Posted
        (post_opened w (some b) path o (fresh_local w filename m))
        (fresh_local w filename m)
        body
        (posted path o w.opens_for_writing)
        (is_open o w.opens_for_writing)
unfolding post_opened
post_opened-Posted w b path body (found content) filename m sending h =
    let l = fresh_local w filename m in
    let v = write_body-BodyWritten b body l h in
    record {
      to = jump (reply (codes "HTTP/1.1 409 Conflict\r\n\r\n") (record l { file_open = true }));
      writes = v.writes;
      ran = refl;
      only_writes = v.only_writes;
      whole = v.whole;
      actions = refl;
      file_open = refl;
      same_filename = refl;
      same_memory = refl;
      checks = check_jumped _ refl;
    }
post_opened-Posted w b path body missing filename m sending h =
    post_new-Posted w b path body filename m sending h
post_opened-Posted w b path body refused filename m sending h =
    post_new-Posted w b path body filename m sending h
