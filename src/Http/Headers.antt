-- ===== src/Http/Headers.antt =====
-- The loop over the headers, held to the reference.
pub mod Round
pub mod Loop
use wrensong_http_server.Prelude.{
  ℕ, zero, suc, ◌+◌, ◌≡◌, ◌≢◌, ◌<◌, ◌≤◌, refl, sym, ap, ◌∙◌, Bool, true, false, List, [], ◌∷◌, ◌++◌,
  length, drop, ◌==◌, Option, none, some, arith, Bool-cases, inl, inr, append_assoc, length-append,
  if◌then◌else◌, All,
}
use mathlib.Core.Path.{subst}
use wrensong_http_server.Prelude.Int.{ℤ}
use wrensong_http_server.Cstring.{
  Chars, codes, NonZero, same, same_upto, atoi, text_from, byte_at, byte_at-end,
}
use wrensong_http_server.Exec.{Exec, done, quit, fault, ◌>>=◌}
use wrensong_http_server.Http.Message.{Pointer, Request}
use wrensong_http_server.Http.Spec.{
  Header, Meaning, begins_with, heed_header, heed_all, headers_text,
}
use wrensong_http_server.Http.Parse.{
  HeaderKind, length_kind, host_kind, command_kind, connection_kind, other_kind, header_kind, Split,
  strsep, string_at, first_at, Parser, set_header, header_line, headers,
}
use wrensong_http_server.Http.Parse.Pieces.{
  Free, Free-NonZero, Free-append, strsep-Free, strsep-end, text_from-piece,
}

same_upto-begins_with : (lit s : Chars) → same_upto (length lit) s lit ≡ begins_with lit s
unfolding same_upto begins_with
same_upto-begins_with [] s = refl
same_upto-begins_with (c ∷ cs) [] = refl
same_upto-begins_with (c ∷ cs) (d ∷ ds) = rw (same_upto-begins_with cs ds) (ground arith)

same_upto-same : (n : ℕ) (a b : Chars) → length b < n → same_upto n a b ≡ same a b
unfolding same_upto same
same_upto-same zero a b h = absurd (omega arith)
same_upto-same (suc n) [] [] h = refl
same_upto-same (suc n) (x ∷ a) (y ∷ b) h = rw (same_upto-same n a b (omega (arith, h))) refl
same_upto-same (suc n) [] (y ∷ b) h = refl
same_upto-same (suc n) (x ∷ a) [] h = refl

-- What a header of each kind says
unfoldable pub heed : HeaderKind → Chars → Meaning → Exec Meaning
heed length_kind val s = do n ← atoi val; done (record s { content_length = n })
heed host_kind val s = done (record s { host = some val })
heed command_kind val s = done (record s { command = some val })
heed connection_kind val s =
    done (if same_upto 5 val (codes "close") then record s { closing = true } else s)
heed other_kind val s = done s

-- The kind that the parser finds by comparing names is the one that the name says.
pub heed-header_kind :
    (name val : Chars) (s : Meaning) → heed (header_kind name) val s ≡ heed_header name val s
unfolding heed header_kind heed_header
heed-header_kind name val s = grind (
  arith,
  same_upto-begins_with (codes "Content-Length") name,
  same_upto-begins_with (codes "Host") name,
  same_upto-same 12 name (codes "Command") (omega arith),
  same_upto-begins_with (codes "Connection") name,
  same_upto-begins_with (codes "close") val,
)

-- A pointer into the part of the buffer that nothing will write to again, and its text
abbrev pub Shows : List ℕ → Pointer → Option Chars → Type 0
Shows pre none none = Unit {0}
Shows pre (some i) (some s) = (post : List ℕ) → text_from (pre ++ post) i ≡ done s
Shows pre _ _ = ⊥

pub Shows-append :
    (pre more : List ℕ) (p : Pointer) (o : Option Chars) → Shows pre p o → Shows (pre ++ more) p o
Shows-append pre more none none h = h
Shows-append pre more none (some s) h = h
Shows-append pre more (some i) none h = h
Shows-append pre more (some i) (some s) h =
    λ post. rw (append_assoc pre more post) (h (more ++ post))

-- The request read so far says this.
pub record Agrees (pre : List ℕ) (r : Request) (closing : Bool) (s : Meaning) : Type 0 where
  pub host_shown : Shows pre r.host s.host
  pub command_shown : Shows pre r.command s.command
  pub length_same : r.content_length ≡ s.content_length
  pub closing_same : closing ≡ s.closing

pub Agrees-append :
    {pre : List ℕ} {r : Request} {closing : Bool} {s : Meaning} (more : List ℕ)
    → Agrees pre r closing s
    → Agrees (pre ++ more) r closing s
Agrees-append {pre} {r} {s} more a = record {
  host_shown = Shows-append pre more r.host s.host a.host_shown;
  command_shown = Shows-append pre more r.command s.command a.command_shown;
  length_same = a.length_same;
  closing_same = a.closing_same;
}

-- What a header does, given where its value stands
pub record Heeded (pre : List ℕ) (kind : HeaderKind) (at : ℕ) (p : Parser) (s' : Meaning)
    : Type 0 where
  pub to : Parser
  pub sets : set_header kind (some at) p ≡ done to
  pub agrees : Agrees pre to.request to.closing s'
  pub same_buf : to.buf ≡ p.buf
  pub same_cursor : to.cursor ≡ p.cursor
  pub same_path : to.request.path ≡ p.request.path
  pub same_method : to.request.method ≡ p.request.method

settle :
    {pre : List ℕ} {r : Request} {closing : Bool} (s : Meaning) {s' : Meaning}
    → done s ≡ done s'
    → Agrees pre r closing s
    → Agrees pre r closing s'
settle {pre} {r} {closing} s {s'} h a = subst (λ z. Agrees pre r closing z) {x = s} (cc) a

module _ (pre : List ℕ) (val : Chars) (at : ℕ) (p : Parser) (s : Meaning)
    (here : (post : List ℕ) → text_from (pre ++ post) at ≡ done val)
    (seen : text_from p.buf at ≡ done val) (a : Agrees pre p.request p.closing s) where
  length_kind_said :
      (o : Exec ℤ) {s' : Meaning}
      → atoi val ≡ o
      → (do n ← o; done (record s { content_length = n })) ≡ done s'
      → Heeded pre length_kind at p s'
  unfolding set_header
  length_kind_said (done n) e h = record {
    to = record p { request = record (p.request) { content_length = n } };
    sets = rw (seen, e);
    agrees =
        settle (record s { content_length = n }) h
          (record {
            host_shown = a.host_shown;
            command_shown = a.command_shown;
            length_same = refl;
            closing_same = a.closing_same;
          });
    same_buf = refl;
    same_cursor = refl;
    same_path = refl;
    same_method = refl;
  }
  length_kind_said quit e h = cc
  length_kind_said fault e h = cc

  pub heeded :
      (kind : HeaderKind) {s' : Meaning} → heed kind val s ≡ done s' → Heeded pre kind at p s'
  unfolding set_header heed
  heeded length_kind h = length_kind_said (atoi val) refl h
  heeded host_kind h = record {
    to = record p { request = record (p.request) { host = some at } };
    sets = refl;
    agrees =
        settle (record s { host = some val }) h
          (record {
            host_shown = here;
            command_shown = a.command_shown;
            length_same = a.length_same;
            closing_same = a.closing_same;
          });
    same_buf = refl;
    same_cursor = refl;
    same_path = refl;
    same_method = refl;
  }
  heeded command_kind h = record {
    to = record p { request = record (p.request) { command = some at } };
    sets = refl;
    agrees =
        settle (record s { command = some val }) h
          (record {
            host_shown = a.host_shown;
            command_shown = here;
            length_same = a.length_same;
            closing_same = a.closing_same;
          });
    same_buf = refl;
    same_cursor = refl;
    same_path = refl;
    same_method = refl;
  }
  heeded connection_kind h = elim (Bool-cases (same_upto 5 val (codes "close"))) [
    | inl e ↦ record {
      to = record p { closing = true };
      sets = rw (seen, e);
      agrees =
          settle (record s { closing = true }) (rw e at h)
            (record {
              host_shown = a.host_shown;
              command_shown = a.command_shown;
              length_same = a.length_same;
              closing_same = refl;
            });
      same_buf = refl;
      same_cursor = refl;
      same_path = refl;
      same_method = refl;
    }
    | inr e ↦ record {
      to = p;
      sets = rw (seen, e);
      agrees = settle s (rw e at h) a;
      same_buf = refl;
      same_cursor = refl;
      same_path = refl;
      same_method = refl;
    }
  ]
  heeded other_kind h = record {
    to = p;
    sets = refl;
    agrees = settle s h a;
    same_buf = refl;
    same_cursor = refl;
    same_path = refl;
    same_method = refl;
  }
