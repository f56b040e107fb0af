-- ===== src/Legacy/Filename.antt =====
-- The handler of src/old.c appends to the global `filename` and cuts it back.
use wrensong_http_server.Prelude.{
  ℕ, ◌+◌, ◌^◌, ◌≤◌, ◌<◌, ◌≡◌, refl, sym, ap, ◌∙◌, Bool, true, false, ◌&&◌, List, [], ◌∷◌, ◌++◌,
  length, length-drop, append-nil, append_assoc, if◌then◌else◌, Option, none, some, arith,
  length-append,
}
use mathlib.Core.Path.{subst}
use mathlib.Core.List.{map-append}
use wrensong_http_server.Cstring.{Chars, codes, same, same_upto}
use wrensong_http_server.Exec.{
  Exec, done, quit, fault, Ends, Ends-bind, Ends-if, Ends-any, write_at, write_at-append,
}
use wrensong_http_server.Bstring.{Block, Bstring, Allocator, malloc, append}
use wrensong_http_server.Bstring.Contents.{Holds, filled, length-filled, read_string}
use wrensong_http_server.Bstring.Append.{Appended, append-Appended}
use wrensong_http_server.Http.Message.{Method}
use wrensong_http_server.Http.Parse.{string_at}
use wrensong_http_server.Legacy.World.{World, reported, act}
use wrensong_http_server.Legacy.Receive.{Request, content_length, read_body, parse}
use wrensong_http_server.Legacy.Respond.{
  Local, Route, root, agent, no_route, echo, get_named, post_named, name_file, get_file, post_file,
  is_get, is_post, route, answer, respond,
}
use wrensong_http_server.Legacy.Handler.{
  Left, restore, cleanup, check, serve, serve_if, receive, handle,
}
use wrensong_http_server.Legacy.Keeps.{
  reply_text-Keeps, get_opened-Keeps, post_opened-Keeps, answer_other-Keeps,
}
use wrensong_http_server.Legacy.Lengths.{string_at-Ends, parse-Ends, MaybeKeeps}

-- A string that starts with `xs`
abbrev pub Prefixed : Chars → Bstring → Type 0
Prefixed xs b = (ys : Chars) × Holds b (xs ++ ys)

Holds-Prefixed : (b : Bstring) (xs : Chars) → Holds b xs → Prefixed xs b
Holds-Prefixed b xs h = ([], subst (Holds b) (sym (append-nil xs)) h)

Appended-Prefixed :
    (m : Allocator) (b : Bstring) (xs s : Chars) (o : Exec (Bool × Bstring × Allocator))
    → Holds b xs
    → Appended m b xs s o
    → Ends (λ (a : Bool × Bstring × Allocator). Prefixed xs a.1) o
Appended-Prefixed m b xs s (done (true, b', m')) h a = (s, a.0)
Appended-Prefixed m b xs s (done (false, b', m')) h a =
    Holds-Prefixed b' xs (subst (λ c. Holds c xs) (sym a.0) h)
Appended-Prefixed m b xs s quit h a = tt
Appended-Prefixed m b xs s fault h a = tt

name_file-Ends :
    (xs name : Chars) (l : Local)
    → Holds l.filename xs
    → length xs + length name + 1 < 2 ^ 32
    → Ends (λ (r : Local × Chars). Prefixed xs r.0.filename) (name_file name l)
unfolding name_file
name_file-Ends xs name l h small =
    Ends-bind (λ (r : Local × Chars). Prefixed xs r.0.filename)
      (append l.memory (some l.filename) (some name)) _
      (Appended-Prefixed l.memory l.filename xs name _ h
        (append-Appended l.memory l.filename xs name h small))
      (λ a p.
        Ends-any (λ (r : Local × Chars). Prefixed xs r.0.filename) (read_string a.1.block) _
          (λ path. p))

-- A name in a path is no longer than the path.
NamesFit : ℕ → Route → Type 0
NamesFit n (get_named s) = length s ≤ n
NamesFit n (post_named s) = length s ≤ n
NamesFit n _ = Unit

if-NamesFit :
    (n : ℕ) (b : Bool) (x y : Route) → NamesFit n x → NamesFit n y → NamesFit n (if b then x else y)
if-NamesFit n true x y h k = h
if-NamesFit n false x y h k = k

route-NamesFit : (m : Method) (path : Chars) → NamesFit (length path) (route m path)
unfolding route NamesFit
route-NamesFit m path = if-NamesFit (length path) (same path (codes "/")) _ _ tt (
    if-NamesFit (length path) (same path (codes "/user-agent")) _ _ tt (
      if-NamesFit (length path) (same_upto 6 path (codes "/echo/")) _ _ tt (
        if-NamesFit (length path) (is_get m && same_upto 7 path (codes "/files/")) _ _
          (omega (arith, length-drop 7 path))
          (if-NamesFit (length path) (is_post m && same_upto 7 path (codes "/files/")) _ _
            (omega (arith, length-drop 7 path)) tt))))

module _ (xs : Chars) where
  abbrev StillPrefixed : Local → Type 0
  StillPrefixed l = Prefixed xs l.filename

  answer-Ends :
      (w : World) (r : Request) (body : Option Bstring) (t : Route) (l : Local) (n : ℕ)
      → Holds l.filename xs
      → NamesFit n t
      → length xs + n + 1 < 2 ^ 32
      → Ends StillPrefixed (answer w r body t l)
  unfolding answer NamesFit get_file post_file
  answer-Ends w r body root l n h fit small =
      (answer_other-Keeps (Prefixed xs) w r body l (Holds-Prefixed l.filename xs h)).0
  answer-Ends w r body agent l n h fit small =
      (answer_other-Keeps (Prefixed xs) w r body l (Holds-Prefixed l.filename xs h)).1
  answer-Ends w r body no_route l n h fit small =
      (answer_other-Keeps (Prefixed xs) w r body l (Holds-Prefixed l.filename xs h)).2
  answer-Ends w r body (echo s) l n h fit small =
      reply_text-Keeps (Prefixed xs) s l (Holds-Prefixed l.filename xs h)
  answer-Ends w r body (get_named name) l n h fit small =
      Ends-bind StillPrefixed (name_file name l) _
        (name_file-Ends xs name l h (omega (arith, fit, small)))
        (λ p q. get_opened-Keeps (Prefixed xs) w (w.opening p.1) p.0 q)
  answer-Ends w r body (post_named name) l n h fit small =
      Ends-bind StillPrefixed (name_file name l) _
        (name_file-Ends xs name l h (omega (arith, fit, small)))
        (λ p q. post_opened-Keeps (Prefixed xs) w body p.1 (w.opening p.1) p.0 q)

  respond-Ends :
      (w : World) (r : Request) (body : Option Bstring) (l : Local)
      → Holds l.filename xs
      → length xs + length r.lines.buf + 1 < 2 ^ 32
      → Ends StillPrefixed (respond w r body l)
  unfolding respond
  respond-Ends w r body l h small =
      Ends-bind StillPrefixed (string_at r.lines.buf r.path) _ (string_at-Ends r.lines.buf r.path)
        (λ path short.
          answer-Ends w r body (route r.method path) l (length path) h
            (route-NamesFit r.method path) (omega (arith, short, small)))

  restore_at :
      (b : Bstring) (o : Option ℕ) (rest : Block)
      → b.block ≡ filled xs ++ (o ∷ rest)
      → b.capacity ≡ length b.block
      → b.capacity < 2 ^ 32
      → (c : Bstring) × (restore (length xs) b ≡ done c) × Holds c xs
  unfolding restore
  restore_at b o rest layout allocated small =
      let cut : write_at b.block (length xs) (some 0) ≡ done (filled xs ++ (some 0 ∷ rest)) =
        rw (layout, ← length-filled xs) (write_at-append (filled xs) o (some 0) rest) in
      (
        record b { block = filled xs ++ (some 0 ∷ rest); length = length xs },
        rw cut,
        record {
          spare = rest;
          layout = refl;
          counted = refl;
          allocated = omega (
            arith,
            allocated,
            ap length layout,
            length-append (filled xs) (o ∷ rest),
            length-append (filled xs) (some 0 ∷ rest),
          );
          small = small;
        },
      )

  -- Cut back, the string holds what it starts with.
  pub restore_lem :
      (b : Bstring) → Prefixed xs b → (c : Bstring) × (restore (length xs) b ≡ done c) × Holds c xs
  restore_lem b ([], h) =
      restore_at b (some 0) h.spare (rw append-nil at h.layout) h.allocated h.small
  restore_lem b (y ∷ ys, h) =
      restore_at b (some y) (filled ys ++ (some 0 ∷ h.spare))
        (h.layout ∙ rw (map-append, append_assoc)) h.allocated h.small

  abbrev pub Restored : Left → Type 0
  Restored l = Holds l.filename xs

  cleanup-Restored :
      (fd n : ℕ) (buffer headers : Bool) (body : Option Bstring) (l : Local)
      → n ≡ length xs
      → Prefixed xs l.filename
      → Ends Restored (cleanup fd n buffer headers body l)
  unfolding cleanup
  cleanup-Restored fd n buffer headers body l e h = Ends-any Restored _ _ (λ m.
      Ends-bind Restored (restore n l.filename) _
        (let (c, ran, held) = restore_lem l.filename h in
          subst (λ k. Ends (λ (c : Bstring). Holds c xs) (restore k l.filename)) (sym e)
            (subst (Ends (λ (c : Bstring). Holds c xs)) (sym ran) held))
        (λ b q. q))

  check-Keeps : (l : Local) → Prefixed xs l.filename → Prefixed xs (check l).filename
  unfolding check
  check-Keeps l h = go (l.checked && l.out.failed)
    where
      go :
          (b : Bool) → Prefixed xs (if b then record l { out = act reported l.out } else l).filename
      go true = h
      go false = h

  serve-Restored :
      (w : World) (fd : ℕ) (filename : Bstring) (r : Request)
      → Holds filename xs
      → length xs + length r.lines.buf + 1 < 2 ^ 32
      → Ends Restored (serve w fd filename r)
  unfolding serve
  serve-Restored w fd filename r h small =
      Ends-any Restored (content_length w.get_header r.lines) _ (λ n.
        Ends-any Restored (read_body r.lines r.memory n) _ (λ b.
          let l0 : Local = record {
            memory = b.1;
            filename = filename;
            file_open = false;
            checked = true;
            out = record { actions = []; sends = w.sends; failed = true };
          } in
          Ends-bind Restored (respond w r b.0 l0) _ (respond-Ends w r b.0 l0 h small) (λ l q.
            cleanup-Restored fd filename.length true _ b.0 (check l) h.counted (check-Keeps l q))))

  receive-Restored :
      (w : World) (fd : ℕ) (filename : Bstring) (m : Allocator) (o : Option (List ℕ))
      → Holds filename xs
      → length xs + 1025 < 2 ^ 32
      → ((bytes : List ℕ) → o ≡ some bytes → length bytes < 1024)
      → Ends Restored (receive w fd filename m o)
  unfolding receive serve_if
  receive-Restored w fd filename m none h small short = h
  receive-Restored w fd filename m (some bytes) h small short =
      Ends-bind Restored (parse (bytes ++ (0 ∷ [])) m) _ (parse-Ends (bytes ++ (0 ∷ [])) m) served
    where
      served :
          (o : Option Request)
          → MaybeKeeps (length (bytes ++ (0 ∷ []))) o
          → Ends Restored (serve_if w fd filename m o)
      served none k = h
      served (some r) k =
          serve-Restored w fd filename r h
            (omega (arith, k, length-append bytes (0 ∷ []), short bytes refl, small))

-- Whenever the handler ends, on any request of at most 1023 bytes and whatever the memory, the files
-- and the socket answer, the global `filename` holds the text that it held before.
pub handle-Restored :
    (xs : Chars) (w : World) (m : Allocator) (filename : Bstring) (fd : ℕ)
    → Holds filename xs
    → length xs + 1025 < 2 ^ 32
    → ((bytes : List ℕ) → w.received ≡ some bytes → length bytes < 1024)
    → Ends (Restored xs) (handle w m filename (some fd))
unfolding handle
handle-Restored xs w m filename fd h small short =
    let l0 : Local = record {
      memory = (malloc m).1;
      filename = filename;
      file_open = false;
      checked = false;
      out = record { actions = reported ∷ []; sends = w.sends; failed = true };
    } in
    Ends-if (Restored xs) (malloc m).0 (receive w fd filename (malloc m).1 w.received)
      (cleanup fd filename.length false false none l0)
      (receive-Restored xs w fd filename (malloc m).1 w.received h small short)
      (cleanup-Restored xs fd filename.length false false none l0 h.counted
        (Holds-Prefixed filename xs h))
