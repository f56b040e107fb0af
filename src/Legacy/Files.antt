-- ===== src/Legacy/Files.antt =====
-- The files that the handler sends and writes.
use wrensong_http_server.Prelude.{
  ℕ, zero, suc, ◌-◌, ◌*◌, ◌/◌, ◌%◌, ◌≤◌, ◌≡◌, refl, sym, ap, ◌∙◌, Bool, true, false, Bool-cases,
  inl, inr, List, [], ◌∷◌, ◌++◌, length, take, drop, take-append-drop, length-drop, append_assoc,
  append-nil, ltb, lt→ltb, if◌then◌else◌, Option, none, some, arith, All, All-append, ◌≢◌, ◌+◌, ap₂,
  Option-cases, length-append,
}
use wrensong_http_server.Cstring.{Chars}
use wrensong_http_server.Exec.{done}
use wrensong_http_server.Bstring.{Block, Bstring}
use wrensong_http_server.Bstring.Contents.{Holds, filled, take_all}
use wrensong_http_server.Bstring.Data.{written, written-filled}
use wrensong_http_server.Legacy.World.{
  buffer_size, Action, sent, wrote, created, reported, connection_freed, file_closed,
  descriptor_closed, Out, act, send, succeeds, others, Reading, whole_read, short_read, read_broken,
  next_reading, chunk_read, bytes_of,
}
use wrensong_http_server.Legacy.Respond.{Local, send_chunks, write_body}

-- The bytes sent to the client, and those written to a file
abbrev pub sent_bytes : List Action → Chars
sent_bytes [] = []
sent_bytes (sent s ∷ rest) = s ++ sent_bytes rest
sent_bytes (_ ∷ rest) = sent_bytes rest

abbrev pub wrote_bytes : List Action → Chars
wrote_bytes [] = []
wrote_bytes (wrote s ∷ rest) = s ++ wrote_bytes rest
wrote_bytes (_ ∷ rest) = wrote_bytes rest

pub sent_bytes-append :
    (xs ys : List Action) → sent_bytes (xs ++ ys) ≡ sent_bytes xs ++ sent_bytes ys
sent_bytes-append [] ys = refl
sent_bytes-append (sent s ∷ xs) ys = rw (sent_bytes-append xs ys, append_assoc)
sent_bytes-append (wrote s ∷ xs) ys = sent_bytes-append xs ys
sent_bytes-append (created s ∷ xs) ys = sent_bytes-append xs ys
sent_bytes-append (reported ∷ xs) ys = sent_bytes-append xs ys
sent_bytes-append (connection_freed ∷ xs) ys = sent_bytes-append xs ys
sent_bytes-append (file_closed ∷ xs) ys = sent_bytes-append xs ys
sent_bytes-append (descriptor_closed n ∷ xs) ys = sent_bytes-append xs ys

sent_once :
    (xs : List Action) (chunk front : Chars)
    → sent_bytes (xs ++ (sent chunk ∷ [])) ++ front ≡ sent_bytes xs ++ (chunk ++ front)
sent_once xs chunk front = rw (sent_bytes-append xs (sent chunk ∷ []), append-nil, append_assoc)

wrote_bytes-append :
    (xs ys : List Action) → wrote_bytes (xs ++ ys) ≡ wrote_bytes xs ++ wrote_bytes ys
wrote_bytes-append [] ys = refl
wrote_bytes-append (wrote s ∷ xs) ys = rw (wrote_bytes-append xs ys, append_assoc)
wrote_bytes-append (sent s ∷ xs) ys = wrote_bytes-append xs ys
wrote_bytes-append (created s ∷ xs) ys = wrote_bytes-append xs ys
wrote_bytes-append (reported ∷ xs) ys = wrote_bytes-append xs ys
wrote_bytes-append (connection_freed ∷ xs) ys = wrote_bytes-append xs ys
wrote_bytes-append (file_closed ∷ xs) ys = wrote_bytes-append xs ys
wrote_bytes-append (descriptor_closed n ∷ xs) ys = wrote_bytes-append xs ys

-- A read that does not leave old bytes in the buffer
abbrev pub IsExact : Reading → Type 0
IsExact (short_read buffer) = ⊥
IsExact _ = Unit {0}

-- How the loop over a file ends: so many bytes were sent, and the rest were not, for a read that failed.
pub record FileSent (fuel : ℕ) (content : Chars) (reads : List Reading) (o : Out) : Type 0 where
  pub ok : Bool
  pub to : Out
  pub ran : send_chunks fuel content reads o ≡ done (ok, to)
  pub bytes : Chars
  pub rest : ℕ
  pub sends : sent_bytes to.actions ≡ sent_bytes o.actions ++ bytes
  pub counted : length bytes + rest ≡ length content
  pub in_order : All IsExact reads → (back : Chars) × (content ≡ bytes ++ back)
  pub whole : ok ≡ true → rest ≡ 0
  pub succeeds_if : All (λ r. r ≢ read_broken) reads → ok ≡ true
  pub not_failed : to.failed ≡ false

pub succeeds-All : (reads : List Bool) → All (λ b. b ≡ true) reads → succeeds reads ≡ true
succeeds-All [] h = refl
succeeds-All (b ∷ bs) h = h.0

pub others-All :
    (reads : List Bool) → All (λ b. b ≡ true) reads → All (λ b. b ≡ true) (others reads)
others-All [] h = tt
others-All (b ∷ bs) h = h.1

chunk_same :
    (reads : List Reading) (chunk bytes : Chars)
    → chunk_read (next_reading reads) chunk ≡ some bytes
    → All IsExact reads
    → bytes ≡ chunk
chunk_same [] chunk bytes e h = cc
chunk_same (whole_read ∷ rs) chunk bytes e h = cc
chunk_same (read_broken ∷ rs) chunk bytes e h = cc
chunk_same (short_read b ∷ rs) chunk bytes e h = absurd h.0

length-bytes_of : (b : ℕ → ℕ) (i n : ℕ) → length (bytes_of b i n) ≡ n
length-bytes_of b i zero = refl
length-bytes_of b i (suc n) = ap suc (length-bytes_of b (suc i) n)

length-chunk :
    (r : Reading) (chunk bytes : Chars)
    → chunk_read r chunk ≡ some bytes
    → length bytes ≡ length chunk
length-chunk whole_read chunk bytes e = cc
length-chunk read_broken chunk bytes e = cc
length-chunk (short_read b) chunk bytes e = cc (length-bytes_of b 0 (length chunk))

not_broken :
    (reads : List Reading) (chunk : Chars)
    → chunk_read (next_reading reads) chunk ≡ none
    → All (λ r. r ≢ read_broken) reads
    → ⊥
not_broken [] chunk e h = cc
not_broken (whole_read ∷ rs) chunk e h = cc
not_broken (read_broken ∷ rs) chunk e h = h.0 refl
not_broken (short_read b ∷ rs) chunk e h = cc

pub others-All_of :
    (P : Reading → Type 0) (reads : List Reading) → All P reads → All P (others reads)
others-All_of P [] h = tt
others-All_of P (r ∷ rs) h = h.1

-- Where every `send` succeeds, the loop over a file ends within as many rounds as the file has bytes, whatever
-- the reads give. It sends no more bytes than the file has, and exactly as many where no read tells an error,
-- also where one is short; and where no read is short, what it sends is the file from its start, in order and
-- nothing twice, up to where a read tells an error.
pub send_chunks-FileSent :
    (fuel : ℕ) (content : Chars) (reads : List Reading) (o : Out)
    → length content ≤ fuel
    → All (λ b. b ≡ true) o.sends
    → o.failed ≡ false
    → FileSent fuel content reads o
unfolding send_chunks
send_chunks-FileSent fuel [] reads o h sending fine = record {
  ok = true;
  to = o;
  ran = refl;
  bytes = [];
  rest = 0;
  sends = rw append-nil;
  counted = refl;
  in_order = λ _. ([], refl);
  whole = λ _. refl;
  succeeds_if = λ _. refl;
  not_failed = fine;
}
send_chunks-FileSent zero (c ∷ cs) reads o h sending fine = absurd (omega arith)
send_chunks-FileSent (suc fuel) (c ∷ cs) reads o h sending fine =
    elim (Option-cases (chunk_read (next_reading reads) (take buffer_size (c ∷ cs)))) [
      | inr (bytes, good) ↦
          let chunk = take buffer_size (c ∷ cs) in
          let left = drop buffer_size (c ∷ cs) in
          let r =
            send_chunks-FileSent fuel left (others reads) (send bytes o)
              (omega (arith, length-drop 1023 cs)) (others-All o.sends sending)
              (rw (succeeds-All o.sends sending) refl) in
          record {
            ok = r.ok;
            to = r.to;
            ran = rw (good, send_chunks) r.ran;
            bytes = bytes ++ r.bytes;
            rest = r.rest;
            sends = r.sends ∙ sent_once o.actions bytes r.bytes;
            counted = omega (
              arith,
              r.counted,
              length-append bytes r.bytes,
              length-chunk (next_reading reads) chunk bytes good,
              length-append chunk left,
              ap length (take-append-drop buffer_size (c ∷ cs)),
            );
            in_order = λ a.
                let (back, e) = r.in_order (others-All_of _ reads a) in
                (
                  back,
                  sym (take-append-drop buffer_size (c ∷ cs))
                      ∙ ap₂ (λ x y. x ++ y) (sym (chunk_same reads chunk bytes good a)) e
                      ∙ sym (append_assoc bytes r.bytes back),
                );
            whole = r.whole;
            succeeds_if = λ a. r.succeeds_if (others-All_of _ reads a);
            not_failed = r.not_failed;
          }
      | inl bad ↦ record {
        ok = false;
        to = act reported o;
        ran = rw (bad, send_chunks);
        bytes = [];
        rest = length (c ∷ cs);
        sends = sent_bytes-append o.actions (reported ∷ []);
        counted = omega arith;
        in_order = λ a. (c ∷ cs, refl);
        whole = λ e. cc;
        succeeds_if = λ a. absurd (not_broken reads (take buffer_size (c ∷ cs)) bad a);
        not_failed = fine;
      }
    ]

-- What the write of a body does: it writes.
abbrev pub Writes : Action → Type 0
Writes (wrote s) = Unit {0}
Writes _ = ⊥

-- The writes of a body, and what else they leave as it was
pub record BodyWritten (b : Option Bstring) (l : Local) (s : Chars) : Type 0 where
  pub writes : List Action
  pub ran :
      write_body b l ≡ done (record l { out = record l.out { actions = l.out.actions ++ writes } })
  pub only_writes : All Writes writes
  pub whole : wrote_bytes writes ≡ s

take-filled :
    (n : ℕ) (s : Chars) (b : Block) → n ≤ length s → take n (filled s ++ b) ≡ filled (take n s)
take-filled zero s b h = refl
take-filled (suc n) [] b h = absurd (omega arith)
take-filled (suc n) (c ∷ s) b h = rw (take-filled n s b (omega arith))

drop-filled :
    (n : ℕ) (s : Chars) (b : Block) → n ≤ length s → drop n (filled s ++ b) ≡ filled (drop n s) ++ b
drop-filled zero s b h = refl
drop-filled (suc n) [] b h = absurd (omega arith)
drop-filled (suc n) (c ∷ s) b h = drop-filled n s b (omega arith)

wrote_if : ℕ → Chars → List Action
wrote_if n x = if ltb 0 n then wrote x ∷ [] else []

act_if :
    (n : ℕ) (x : Chars) (o : Out)
    → (if ltb 0 n then act (wrote x) o else o) ≡ record o { actions = o.actions ++ wrote_if n x }
unfolding wrote_if
act_if n x o = elim (Bool-cases (ltb 0 n)) [
  | inl some_left ↦ rw some_left refl
  | inr none_left ↦ rw (none_left, append-nil) refl
]

wrote_if-Writes : (n : ℕ) (x : Chars) → All Writes (wrote_if n x)
unfolding wrote_if
wrote_if-Writes n x = elim (Bool-cases (ltb 0 n)) [
  | inl some_left ↦ rw some_left (tt, tt)
  | inr none_left ↦ rw none_left tt
]

wrote_if_lem : (n : ℕ) (x : Chars) → (n ≡ 0 → x ≡ []) → wrote_bytes (wrote_if n x) ≡ x
unfolding wrote_if
wrote_if_lem zero x h = sym (h refl)
wrote_if_lem (suc n) x h =
    ap (λ b. wrote_bytes (if b then wrote x ∷ [] else [])) (lt→ltb 0 (suc n) (omega arith))
    ∙ append-nil x

pub length-zero : (xs : Chars) → length xs ≡ 0 → xs ≡ []
length-zero [] h = refl
length-zero (x ∷ xs) h = absurd (omega arith)

-- A body of any length is written to the file whole: in chunks of 1024 bytes and a last, shorter one.
pub write_body-BodyWritten :
    (b : Bstring) (s : Chars) (l : Local) → Holds b s → BodyWritten (some b) l s
unfolding write_body
write_body-BodyWritten b s l h =
    let n = length s in
    let k = 1024 * (n / 1024) in
    let start : written (take k b.block) ≡ done (take k s) =
      rw (h.layout, take-filled k s (some 0 ∷ h.spare) (omega arith)) (written-filled (take k s)) in
    let rest_length : length (drop k s) ≡ n % 1024 = omega (arith, length-drop k s) in
    let end : written (take (n % 1024) (drop (n - n % 1024) b.block)) ≡ done (drop k s) =
      ap (λ j. written (take (n % 1024) (drop j b.block))) {y = k} (omega arith)
      ∙ rw
          (
            h.layout,
            drop-filled k s (some 0 ∷ h.spare) (omega arith),
            take-filled (n % 1024) (drop k s) (some 0 ∷ h.spare) (omega (arith, rest_length)),
            take_all (drop k s) (n % 1024) (omega (arith, rest_length)),
          )
          (written-filled (drop k s)) in
    let chunks = wrote_if (n / 1024) (take k s) in
    let last = wrote_if (n % 1024) (drop k s) in
    record {
      writes = chunks ++ last;
      ran =
          rw (h.counted, start, end)
            (rw
              (
                act_if (n / 1024) (take k s) l.out,
                act_if (n % 1024) (drop k s) (record l.out { actions = l.out.actions ++ chunks }),
                append_assoc,
              )
              refl);
      only_writes =
          All-append Writes chunks last (wrote_if-Writes (n / 1024) (take k s))
            (wrote_if-Writes (n % 1024) (drop k s));
      whole =
          wrote_bytes-append chunks last
          ∙ ap (λ x. x ++ wrote_bytes last)
              (wrote_if_lem (n / 1024) (take k s) (λ e. ap (λ q. take (1024 * q) s) e))
          ∙ ap (λ x. take k s ++ x)
              (wrote_if_lem (n % 1024) (drop k s) (λ e. length-zero (drop k s) (rest_length ∙ e)))
          ∙ take-append-drop k s;
    }
