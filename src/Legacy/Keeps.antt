-- ===== src/Legacy/Keeps.antt =====
-- What src/old.c does behind naming the file leaves the global `filename` alone.
use wrensong_http_server.Prelude.{
  ◌-◌, ◌*◌, ◌/◌, ◌%◌, true, ◌&&◌, [], ◌∷◌, length, take, drop, ltb, Option, none, some,
}
use wrensong_http_server.Cstring.{Chars, codes, text_from}
use wrensong_http_server.Exec.{done, fault, ◌>>=◌, Ends, Ends-bind, Ends-if, Ends-any}
use wrensong_http_server.Bstring.{Bstring, malloc, free_block, init, free}
use wrensong_http_server.Bstring.Data.{written, data_of}
use wrensong_http_server.Http.Message.{Pointer}
use wrensong_http_server.Legacy.World.{
  buffer_size, Opening, found, missing, refused, World, created, act,
}
use wrensong_http_server.Legacy.Receive.{Request, lookup}
use wrensong_http_server.Legacy.Respond.{
  http_version, Local, root, agent, no_route, reply, give_up, plain_text, reply_text, user_agent,
  append_all, send_string, file_header, send_chunks, send_file, get_found, get_missing, get_opened,
  write_body, post_new, post_opened, answer,
}

-- A property of the global `filename` stays.
module _ (P : Bstring → Type 0) where
  abbrev pub Keeps : Local → Type 0
  Keeps l = P l.filename

  pub reply_text-Keeps : (s : Chars) (l : Local) → P l.filename → Ends Keeps (reply_text s l)
  unfolding reply_text
  reply_text-Keeps s l h =
      let (got, left) = malloc l.memory in
      Ends-if Keeps (got && ltb (length (plain_text s)) buffer_size)
        (done (reply (plain_text s) (record l { memory = free_block left }))) fault h tt

  user_agent-Keeps :
      (r : Request) (p : Pointer) (l : Local) → P l.filename → Ends Keeps (user_agent r p l)
  unfolding user_agent
  user_agent-Keeps r none l h = reply_text-Keeps (codes "NULL") l h
  user_agent-Keeps r (some i) l h =
      Ends-any Keeps (text_from r.lines.buf i) _ (λ s. reply_text-Keeps s l h)

  send_string-Keeps : (b : Option Bstring) (l : Local) → P l.filename → Ends Keeps (send_string b l)
  unfolding send_string
  send_string-Keeps none l h = tt
  send_string-Keeps (some b) l h = Ends-any Keeps (data_of b) _ (λ s. h)

  send_file-Keeps :
      (w : World) (content : Chars) (l : Local) → P l.filename → Ends Keeps (send_file w content l)
  unfolding send_file
  send_file-Keeps w content l h =
      Ends-any Keeps (send_chunks (length content) content w.reads l.out) _ (λ c. h)

  get_found-Keeps :
      (w : World) (content : Chars) (b : Option Bstring) (l : Local)
      → P l.filename
      → Ends Keeps (get_found w content b l)
  unfolding get_found
  get_found-Keeps w content b l h =
      Ends-if Keeps (w.seeks && (w.tells && w.rewinds)) _ (done (give_up l))
        (Ends-any Keeps (append_all l.memory b (file_header (length content))) _ (λ a.
          Ends-bind Keeps (send_string a.0 (record l { memory = a.1 })) _
            (send_string-Keeps a.0 (record l { memory = a.1 }) h)
            (λ l1 h1.
              Ends-any Keeps (free l1.memory a.0) _
                (λ m. send_file-Keeps w content (record l1 { memory = m }) h1))))
        h

  get_missing-Keeps : (b : Option Bstring) (l : Local) → P l.filename → Ends Keeps (get_missing b l)
  unfolding get_missing
  get_missing-Keeps b l h =
      Ends-any Keeps (append_all l.memory b (codes " 404 Not Found\r\n\r\n" ∷ [])) _ (λ a.
        Ends-bind Keeps (send_string a.0 (record l { memory = a.1 })) _
          (send_string-Keeps a.0 (record l { memory = a.1 }) h) (λ l1 h1. h1))

  pub get_opened-Keeps :
      (w : World) (o : Opening) (l : Local) → P l.filename → Ends Keeps (get_opened w o l)
  unfolding get_opened
  get_opened-Keeps w refused l h = h
  get_opened-Keeps w missing l h =
      Ends-any Keeps (init l.memory 0 (some http_version)) _
        (λ b. get_missing-Keeps b.0 (record l { memory = b.1 }) h)
  get_opened-Keeps w (found content) l h =
      Ends-any Keeps (init l.memory 0 (some http_version)) _
        (λ b. get_found-Keeps w content b.0 (record l { memory = b.1; file_open = true }) h)

  write_body-Keeps : (b : Option Bstring) (l : Local) → P l.filename → Ends Keeps (write_body b l)
  unfolding write_body
  write_body-Keeps none l h = tt
  write_body-Keeps (some b) l h =
      let chunks = b.length / buffer_size in
      let remaining = b.length % buffer_size in
      Ends-any Keeps (written (take (buffer_size * chunks) b.block)) _ (λ whole.
        Ends-any Keeps (written (take remaining (drop (b.length - remaining) b.block))) _
          (λ rest. h))

  post_new-Keeps :
      (w : World) (b : Option Bstring) (path : Chars) (l : Local)
      → P l.filename
      → Ends Keeps (post_new w b path l)
  unfolding post_new
  post_new-Keeps w b path l h =
      let l0 : Local = record l { file_open = true; out = act (created path) l.out } in
      Ends-if Keeps w.opens_for_writing
        (write_body b l0 >>= λ l1. done (reply (codes "HTTP/1.1 201 Created\r\n\r\n") l1))
        (done (give_up l))
        (Ends-bind Keeps (write_body b l0) _ (write_body-Keeps b l0 h) (λ l1 h1. h1)) h

  pub post_opened-Keeps :
      (w : World) (b : Option Bstring) (path : Chars) (o : Opening) (l : Local)
      → P l.filename
      → Ends Keeps (post_opened w b path o l)
  unfolding post_opened
  post_opened-Keeps w b path (found content) l h = h
  post_opened-Keeps w b path missing l h = post_new-Keeps w b path l h
  post_opened-Keeps w b path refused l h = post_new-Keeps w b path l h

  pub answer_other-Keeps :
      (w : World) (r : Request) (body : Option Bstring) (l : Local)
      → P l.filename
      → Ends Keeps (answer w r body root l)
        × Ends Keeps (answer w r body agent l)
        × Ends Keeps (answer w r body no_route l)
  unfolding answer
  answer_other-Keeps w r body l h =
      (h, user_agent-Keeps r (lookup w.get_header r.lines (codes "user-agent")) l h, h)
