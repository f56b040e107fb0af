-- ===== src/Legacy/Memory.antt =====
-- What the strings of src/old.c ask of the allocator, where it grants what it is asked.
use wrensong_http_server.Prelude.{
  ℕ, zero, suc, ◌+◌, ◌^◌, ◌≤◌, ◌<◌, ◌≡◌, refl, ◌∙◌, inl, inr, ◌⊎◌, Bool, true, false, List, [], ◌∷◌,
  ◌++◌, length, map, replicate, none, append_assoc, append-nil, length-append, some, arith, leb,
  if◌then◌else◌,
}
use wrensong_http_server.Cstring.{Chars}
use wrensong_http_server.Exec.{Exec, done, quit, fault, ◌>>=◌, Ends, Ends-any, memcpy, write_at}
use wrensong_http_server.Bstring.{
  resized, grown_capacity, uint, size, Bstring, Allocator, answer as granted, later, append,
  append_at, append_fill, init, init_fill, init_capacity, place,
}
use wrensong_http_server.Bstring.Contents.{Holds}
use wrensong_http_server.Bstring.Append.{Appended, append-Appended}
use wrensong_http_server.Legacy.Respond.{append_all, http_version}

-- The next so many allocations are granted.
abbrev pub Gives : ℕ → List Bool → Type 0
Gives zero bs = Unit {0}
Gives (suc k) [] = ⊥
Gives (suc k) (b ∷ bs) = (b ≡ true) × Gives k bs

pub granted-Gives : (k : ℕ) (bs : List Bool) → Gives (suc k) bs → granted bs ≡ true
granted-Gives k [] h = absurd h
granted-Gives k (b ∷ bs) h = h.0

pub later-Gives : (k : ℕ) (bs : List Bool) → Gives (suc k) bs → Gives k (later bs)
later-Gives k [] h = absurd h
later-Gives k (b ∷ bs) h = h.1

pub fewer-Gives : (k : ℕ) (bs : List Bool) → Gives (suc k) bs → Gives k bs
fewer-Gives zero bs h = tt
fewer-Gives (suc k) [] h = absurd h
fewer-Gives (suc k) (b ∷ bs) h = (h.0, fewer-Gives k bs h.1)

pub le-Gives : (j k : ℕ) (bs : List Bool) → j ≤ k → Gives k bs → Gives j bs
le-Gives zero k bs h g = tt
le-Gives (suc j) zero bs h g = absurd (omega arith)
le-Gives (suc j) (suc k) [] h g = absurd g
le-Gives (suc j) (suc k) (b ∷ bs) h g = (g.0, le-Gives j k bs (omega arith) g.1)

-- The memory behind two granted blocks
abbrev pub after_two : Allocator → Allocator
after_two m = record { answers = later (later m.answers); live = m.live + 1 + 1 }

-- `bstring_append` asks for memory at most once.
abbrev AsksOnce : Allocator → Bool × Bstring × Allocator → Type 0
AsksOnce m a = (a.2.answers ≡ m.answers) ⊎ (a.2.answers ≡ later m.answers)

branches-AsksOnce :
    (m : Allocator) (b : Bstring) (tight got : Bool) (x y : Exec Bstring)
    → Ends (AsksOnce m) (
        if tight
        then (if got
            then (do b' ← x; done (true, b', record m { answers = later m.answers }))
            else done (false, b, record m { answers = later m.answers }))
        else (do b' ← y; done (true, b', m)))
branches-AsksOnce m b true true x y =
    Ends-any (AsksOnce m) x (λ b'. done (true, b', record m { answers = later m.answers }))
      (λ b'. inr refl)
branches-AsksOnce m b true false x y = inr refl
branches-AsksOnce m b false got x y =
    Ends-any (AsksOnce m) y (λ b'. done (true, b', m)) (λ b'. inl refl)

append-AsksOnce :
    (m : Allocator) (b : Bstring) (s : Chars) → Ends (AsksOnce m) (append m (some b) (some s))
unfolding append append_at
append-AsksOnce m b s =
    branches-AsksOnce m b (leb b.capacity (size (b.length + length s))) (granted m.answers)
      (append_fill
        (record b {
          block = resized b.block (grown_capacity b.capacity (size (b.length + length s)));
          capacity = uint (grown_capacity b.capacity (size (b.length + length s)));
        })
        (size (b.length + length s)) s)
      (append_fill b (size (b.length + length s)) s)

-- What has been appended, with memory for it
pub record Grown (k : ℕ) (m : Allocator) (b : Bstring) (xs s : Chars) : Type 0 where
  pub to : Bstring
  pub memory : Allocator
  pub ran : append m (some b) (some s) ≡ done (true, to, memory)
  pub holds : Holds to (xs ++ s)
  pub same_live : memory.live ≡ m.live
  pub gives : Gives k memory.answers

pub append-Grown :
    (k : ℕ) (m : Allocator) (b : Bstring) (xs s : Chars)
    → Holds b xs
    → length xs + length s + 1 < 2 ^ 32
    → Gives (suc k) m.answers
    → Grown k m b xs s
append-Grown k m b xs s h small g =
    go (append m (some b) (some s)) refl (append-Appended m b xs s h small) (append-AsksOnce m b s)
  where
    asked :
        (m' : Allocator)
        → (m'.answers ≡ m.answers) ⊎ (m'.answers ≡ later m.answers)
        → Gives k m'.answers
    asked m' (inl e) = rw e (fewer-Gives k m.answers g)
    asked m' (inr e) = rw e (later-Gives k m.answers g)

    go :
        (o : Exec (Bool × Bstring × Allocator))
        → append m (some b) (some s) ≡ o
        → Appended m b xs s o
        → Ends (AsksOnce m) o
        → Grown k m b xs s
    go (done (true, b', m')) e a once = record {
      to = b';
      memory = m';
      ran = e;
      holds = a.0;
      same_live = a.2;
      gives = asked m' once;
    }
    go (done (false, b', m')) e a once = absurd (refused (granted-Gives k m.answers g) a.2)
      where
        refused : {x : Bool} → x ≡ true → x ≡ false → ⊥
        refused p q = cc
    go quit e a once = absurd a
    go fault e a once = absurd a

abbrev pub joined : List Chars → Chars
joined [] = []
joined (s ∷ ss) = s ++ joined ss

pub record Joined (m : Allocator) (b : Bstring) (xs : Chars) (ss : List Chars) : Type 0 where
  pub to : Bstring
  pub memory : Allocator
  pub ran : append_all m (some b) ss ≡ done (some to, memory)
  pub holds : Holds to (xs ++ joined ss)
  pub same_live : memory.live ≡ m.live

pub append_all-Joined :
    (m : Allocator) (b : Bstring) (xs : Chars) (ss : List Chars)
    → Holds b xs
    → length xs + length (joined ss) + 1 < 2 ^ 32
    → Gives (length ss) m.answers
    → Joined m b xs ss
unfolding append_all
append_all-Joined m b xs [] h small g = record {
  to = b;
  memory = m;
  ran = refl;
  holds = rw append-nil h;
  same_live = refl;
}
append_all-Joined m b xs (s ∷ ss) h small g =
    let one =
      append-Grown (length ss) m b xs s h (omega (arith, small, length-append s (joined ss))) g in
    let more =
      append_all-Joined one.memory one.to (xs ++ s) ss one.holds
        (omega (arith, small, length-append s (joined ss), length-append xs s)) one.gives in
    record {
      to = more.to;
      memory = more.memory;
      ran = rw one.ran more.ran;
      holds = rw append_assoc at more.holds;
      same_live = more.same_live ∙ one.same_live;
    }

-- `HTTP_VERSION` in a block of 16 bytes
abbrev pub versioned : Bstring
versioned = record {
  block = map some http_version ++ (some 0 ∷ replicate 7 none);
  length = 8;
  capacity = 16;
}

pub versioned-Holds : Holds versioned http_version
versioned-Holds = record {
  spare = replicate 7 none;
  layout = refl;
  counted = refl;
  allocated = refl;
  small = ground arith;
}

pub init_lem :
    (k : ℕ) (m : Allocator)
    → Gives (suc (suc k)) m.answers
    → (init m 0 (some http_version)
        ≡ done
            (some versioned, record { answers = later (later m.answers); live = m.live + 1 + 1 }))
      × Gives k (later (later m.answers))
unfolding init init_fill place memcpy write_at init_capacity
init_lem k m g =
    let g' = later-Gives (suc k) m.answers g in
    (
      rw (granted-Gives (suc k) m.answers g, granted-Gives k (later m.answers) g') refl,
      later-Gives k (later m.answers) g',
    )
