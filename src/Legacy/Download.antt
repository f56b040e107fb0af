-- ===== src/Legacy/Download.antt =====
-- A file that is there, asked for from src/old.c: with memory and no failing call, the whole of it is
-- sent behind its header.
use wrensong_http_server.Prelude.{
  ℕ, zero, suc, ◌+◌, ◌^◌, ◌≤◌, ◌<◌, ◌≡◌, refl, sym, ap, ◌∙◌, inl, inr, Bool, true, false, ◌&&◌,
  Option, none, ◌≢◌, List, [], ◌∷◌, ◌++◌, length, ◌/◌, ◌%◌, append_assoc, append-nil, length-append,
  some, arith, All, All-append, drop, take, Bool-cases, ltb,
}
use wrensong_http_server.Cstring.{Chars, codes}
use wrensong_http_server.Exec.{Exec, done, Ends-done, Ends}
use wrensong_http_server.Bstring.{Bstring, Allocator, later, free, free_block}
use wrensong_http_server.Bstring.Contents.{Holds}
use wrensong_http_server.Bstring.Data.{data_of-Holds}
use wrensong_http_server.Legacy.World.{
  buffer_size, World, Action, found, missing, Out, sent, wrote, created, reported, connection_freed,
  file_closed, descriptor_closed, act, send, others, Reading, whole_read, short_read, read_broken,
  next_reading, chunk_read,
}
use wrensong_http_server.Legacy.Respond.{
  send_chunks, Local, digits, append_all, send_string, file_header, send_file, get_found,
  http_version, get_opened, get_missing, jump, reply,
}
use wrensong_http_server.Legacy.Memory.{
  Gives, append_all-Joined, versioned, versioned-Holds, init_lem, joined,
}
use wrensong_http_server.Legacy.Files.{
  succeeds-All, others-All, sent_bytes, sent_bytes-append, send_chunks-FileSent, IsExact,
  length-zero,
}

length-digits : (fuel n : ℕ) → length (digits fuel n) ≤ fuel
unfolding digits
length-digits zero n = omega arith
length-digits (suc fuel) n = elim (Bool-cases (ltb n 10)) [
  | inl one ↦ rw one (omega arith)
  | inr more ↦ rw more (
      omega (
        arith,
        length-digits fuel (n / 10),
        length-append (digits fuel (n / 10)) ((b'0' + n % 10) ∷ []),
      ))
]

-- The text before a file of `n` bytes
abbrev pub header_text : ℕ → Chars
header_text n = http_version ++ joined (file_header n)

length-header_text : (n : ℕ) → length (joined (file_header n)) ≤ 100
length-header_text n =
    omega (arith, length-digits 20 n, length-append (digits 20 n) (codes "\r\n\r\n" ++ []))

send_string_lem :
    (b : Bstring) (s : Chars) (l : Local) → Holds b s → send_string (some b) l ≡ done (reply s l)
unfolding send_string
send_string_lem b s l h = rw (data_of-Holds b s h)

-- What the answers to a GET do: they send and report.
abbrev pub Talks : Action → Type 0
Talks (sent s) = Unit
Talks reported = Unit
Talks (wrote s) = ⊥
Talks (created s) = ⊥
Talks connection_freed = ⊥
Talks file_closed = ⊥
Talks (descriptor_closed n) = ⊥

-- Nothing has failed, and no send will.
pub record IsFine (o : Out) : Type 0 where
  pub talks : All Talks o.actions
  pub not_failed : o.failed ≡ false
  pub will_send : All (λ b. b ≡ true) o.sends

pub send-IsFine :
    (bytes : Chars) (o : Out)
    → All Talks o.actions
    → All (λ b. b ≡ true) o.sends
    → IsFine (send bytes o)
send-IsFine bytes o t g = record {
  talks = All-append Talks o.actions (sent bytes ∷ []) t (tt, tt);
  not_failed = rw (succeeds-All o.sends g) refl;
  will_send = others-All o.sends g;
}

send_chunks-IsFine :
    (fuel : ℕ) (content : Chars) (reads : List Reading) (o : Out)
    → IsFine o
    → Ends (λ (r : Bool × Out). IsFine r.1) (send_chunks fuel content reads o)
unfolding send_chunks
send_chunks-IsFine fuel [] reads o h = h
send_chunks-IsFine zero (c ∷ cs) reads o h = tt
send_chunks-IsFine (suc fuel) (c ∷ cs) reads o h =
    go (chunk_read (next_reading reads) (take buffer_size (c ∷ cs))) (λ bytes.
      send_chunks-IsFine fuel (drop buffer_size (c ∷ cs)) (others reads) (send bytes o)
        (send-IsFine bytes o h.talks h.will_send))
  where
    rest : Chars → Exec (Bool × Out)
    rest bytes = send_chunks fuel (drop buffer_size (c ∷ cs)) (others reads) (send bytes o)

    go :
        (b : Option Chars)
        → ((bytes : Chars) → Ends (λ (r : Bool × Out). IsFine r.1) (rest bytes))
        → Ends
            (λ (r : Bool × Out). IsFine r.1)
            (elim b [ some bytes ↦ rest bytes | none ↦ done (false, act reported o) ])
    go (some bytes) later = later bytes
    go none later = record {
      talks = All-append Talks o.actions (reported ∷ []) h.talks (tt, tt);
      not_failed = h.not_failed;
      will_send = h.will_send;
    }

-- A file that was sent
pub record Downloaded (w : World) (content : Chars) (l : Local) : Type 0 where
  pub to : Local
  pub ran : get_opened w (found content) l ≡ done to
  pub sends :
      sent_bytes to.out.actions
      ≡ sent_bytes l.out.actions ++ (header_text (length content) ++ content)
  pub balanced : to.memory.live ≡ l.memory.live
  pub file_open : to.file_open ≡ true
  pub same_filename : to.filename ≡ l.filename
  pub fine : IsFine to.out

send_file_lem :
    (w : World) (content : Chars) (l : Local)
    → All (λ r. r ≡ whole_read) w.reads
    → IsFine l.out
    → (o : Out) × (send_file w content l ≡ done (record l { out = o; checked = true }))
      × (sent_bytes o.actions ≡ sent_bytes l.out.actions ++ content)
      × IsFine o
unfolding send_file
send_file_lem w content l reading good =
    let r =
      send_chunks-FileSent (length content) content w.reads l.out (omega arith) good.will_send
        good.not_failed in
    let (exact, answered) = wholes w.reads reading in
    let ok = r.succeeds_if answered in
    let (back, parts) = r.in_order exact in
    let none_left : length back ≡ 0 =
      omega (arith, r.counted, r.whole ok, ap length parts, length-append r.bytes back) in
    (
      r.to,
      rw (r.ran, ok) refl,
      r.sends
          ∙ ap (λ s. sent_bytes l.out.actions ++ s)
              (sym
                (parts ∙ ap (λ s. r.bytes ++ s) (length-zero back none_left) ∙ append-nil r.bytes)),
      Ends-done (λ (q : Bool × Out). IsFine q.1)
          (send_chunks (length content) content w.reads l.out)
          (send_chunks-IsFine (length content) content w.reads l.out good) r.ran,
    )
  where
    wholes :
        (reads : List Reading)
        → All (λ r. r ≡ whole_read) reads
        → All IsExact reads × All (λ r. r ≢ read_broken) reads
    wholes [] h = (tt, tt)
    wholes (whole_read ∷ rs) h =
        let (exact, answered) = wholes rs h.1 in ((tt, exact), ((λ e. cc), answered))
    wholes (read_broken ∷ rs) h = cc (h.0)
    wholes (short_read b ∷ rs) h = cc (h.0)

get_found_lem :
    (w : World) (content : Chars) (b : Bstring) (m : Allocator) (l l1 : Local)
    → (w.seeks && (w.tells && w.rewinds)) ≡ true
    → append_all l.memory (some versioned) (file_header (length content)) ≡ done (some b, m)
    → send_file w content (record (reply (header_text (length content)) (record l { memory = m })) {
      memory = free_block (free_block m);
    })
      ≡ done l1
    → Holds b (header_text (length content))
    → get_found w content (some versioned) l ≡ done l1
unfolding get_found free
get_found_lem w content b m l l1 fine appended sending h =
    rw (get_found, fine)
      (rw appended
        (rw (send_string_lem b (header_text (length content)) (record l { memory = m }) h) sending))

-- A file that is there is sent whole: where the file can be measured and read, `send` succeeds, only
-- messages were sent and reported so far, and memory is granted for the at most seven requests, the
-- answer to a GET for it ends without a fault, sends the header with the length of the file and then
-- every byte of the file, in order and once, leaves the file open for the cleanup, and keeps none of
-- the memory that it asked for.
pub get_opened-Downloaded :
    (w : World) (content : Chars) (l : Local)
    → w.seeks ≡ true
    → w.tells ≡ true
    → w.rewinds ≡ true
    → All (λ r. r ≡ whole_read) w.reads
    → Gives 7 l.memory.answers
    → length content < 2 ^ 63
    → All Talks l.out.actions
    → All (λ b. b ≡ true) l.out.sends
    → Downloaded w content l
unfolding get_opened
get_opened-Downloaded w content l seeks tells rewinds reading g fits talking sending_goes =
    let n = length content in
    let l0 = record l {
      memory = record { answers = later (later l.memory.answers); live = l.memory.live + 1 + 1 };
      file_open = true;
    } in
    let (made, g') = init_lem 5 l.memory g in
    let j =
      append_all-Joined l0.memory versioned http_version (file_header n) versioned-Holds
        (omega (arith, length-header_text n)) g' in
    let l1 = record (reply (header_text n) (record l0 { memory = j.memory })) {
      memory = free_block (free_block j.memory);
    } in
    let (o, sending, bytes, fine) =
      send_file_lem w content l1 reading (send-IsFine (header_text n) l.out talking sending_goes) in
    record {
      to = record l1 { out = o; checked = true };
      ran =
          rw (get_opened, made)
            (get_found_lem w content j.to j.memory l0 _ (rw (seeks, tells, rewinds) refl) j.ran
              sending j.holds);
      sends =
          bytes
          ∙ ap (λ s. s ++ content)
              (sent_bytes-append l.out.actions (sent (header_text n) ∷ [])
                ∙ ap (λ s. sent_bytes l.out.actions ++ s) (append-nil (header_text n)))
          ∙ append_assoc (sent_bytes l.out.actions) (header_text n) content;
      balanced = omega (arith, j.same_live);
      file_open = refl;
      same_filename = refl;
      fine = fine;
    }

-- The answer where there is no such file: `res` is not freed.
abbrev pub not_found_text : Chars
not_found_text = http_version ++ codes " 404 Not Found\r\n\r\n"

pub get_opened_missing :
    (w : World) (l : Local)
    → Gives 3 l.memory.answers
    → (m : Allocator) × (get_opened w missing l
        ≡ done (jump (reply not_found_text (record l { memory = m }))))
      × (m.live ≡ l.memory.live + 2)
unfolding get_opened get_missing
get_opened_missing w l g =
    let l0 = record l {
      memory = record { answers = later (later l.memory.answers); live = l.memory.live + 1 + 1 };
    } in
    let (made, g') = init_lem 1 l.memory g in
    let j =
      append_all-Joined l0.memory versioned http_version (codes " 404 Not Found\r\n\r\n" ∷ [])
        versioned-Holds (ground arith) g' in
    (
      j.memory,
      rw (get_opened, made)
          (rw (get_missing, j.ran)
            (rw
              (send_string_lem j.to (http_version ++ (codes " 404 Not Found\r\n\r\n"))
                (record l0 { memory = j.memory }) j.holds)
              refl)),
      omega (arith, j.same_live),
    )
