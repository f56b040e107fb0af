-- ===== src/Server/Main.antt =====
-- `main` of src/server.c, as the calls that it makes, in their order. What the sockets answer is a
-- parameter; `event_base_dispatch` returns when the loop is left.
mod Tests
use wrensong_http_server.Prelude.{
  ℕ, ◌≡◌, refl, Bool, true, false, not, ◌&&◌, ◌||◌, List, [], ◌∷◌, ◌++◌, ◌==◌, if◌then◌else◌,
  Option, none, some, Bool-cases, inl, inr, ◌∙◌, ap, ◌+◌, ◌⊎◌, All,
}
use wrensong_http_server.Prelude.Int.{ℤ}
use wrensong_http_server.Cstring.{Chars}
use wrensong_http_server.Exec.{Exec, done, quit, fault, ◌>>=◌}
use wrensong_http_server.Config.Table.{Table}
use wrensong_http_server.Server.{Settings, initial_settings, read_config}

-- Whether the event base, and `bind` and `listen` for each family, succeed
pub record Answers : Type 0 where
  pub base_made : Bool
  pub bound4 : Bool
  pub listens4 : Bool
  pub bound6 : Bool
  pub listens6 : Bool

pub data Call : Type 0 where
  usage_shown perror_bind perror_listen : Call
  listener4_added listener6_added : ℤ → Call
  update_added : Call
  http_start : ℤ → Call
  server_dispatched cleaned_and_exited : Call

-- From the update event on: `cleanup_and_exit` does not return, so nothing follows it.
serve : Settings → List Call
serve s = update_added ∷ http_start s.threads ∷ server_dispatched ∷ cleaned_and_exited ∷ []

listen6 : Answers → Settings → List Call
unfolding serve
listen6 a s =
    if a.bound6
    then (if a.listens6 then listener6_added s.port ∷ serve s else perror_listen ∷ [])
    else perror_bind ∷ []

listen4 : Answers → Settings → List Call
unfolding listen6 serve
listen4 a s =
    if a.bound4
    then (if a.listens4
        then listener4_added s.port ∷ (if s.ipv6 then listen6 a s else serve s)
        else perror_listen ∷ [])
    else perror_bind ∷ []

opened : Answers → Settings → List Call
unfolding listen4
opened a s = if a.base_made then listen4 a s else []

-- `main`, with the number of arguments and what `read_config` finds
unfoldable pub main : ℕ → Answers → Option Table → ℕ → Chars → Exec (List Call)
unfolding opened
main argc a loaded mtime path =
    if argc == 2
    then (do s ← read_config loaded mtime path initial_settings; done (opened a s))
    else done (usage_shown ∷ [])

-- Whether both families that are asked for listen
abbrev pub all_listen : Answers → Bool → Bool
all_listen a ipv6 =
    a.base_made && (a.bound4 && (a.listens4 && (not ipv6 || (a.bound6 && a.listens6))))

-- What `main` does once everything listens
abbrev pub whole_run : ℤ → Bool → ℤ → List Call
whole_run port ipv6 threads =
    listener4_added port
    ∷ ((if ipv6 then listener6_added port ∷ [] else [])
        ++ (update_added ∷ http_start threads ∷ server_dispatched ∷ cleaned_and_exited ∷ []))

-- The calls before the update event
abbrev pub IsEarly : Call → Type 0
IsEarly usage_shown = Unit
IsEarly perror_bind = Unit
IsEarly perror_listen = Unit
IsEarly (listener4_added p) = Unit
IsEarly (listener6_added p) = ⊥
IsEarly update_added = ⊥
IsEarly (http_start n) = ⊥
IsEarly server_dispatched = ⊥
IsEarly cleaned_and_exited = ⊥

abbrev pub reports : List Call → ℕ
reports [] = 0
reports (perror_bind ∷ cs) = reports cs + 1
reports (perror_listen ∷ cs) = reports cs + 1
reports (c ∷ cs) = reports cs

-- What `main` comes to: it serves, or it gives up.
abbrev pub RunOf : Answers → Settings → List Call → Type 0
RunOf a s cs =
    ((all_listen a s.ipv6 ≡ true) × (cs ≡ whole_run s.port s.ipv6 s.threads))
    ⊎ ((all_listen a s.ipv6 ≡ false)
        × All IsEarly cs
        × (reports cs ≡ (if a.base_made then 1 else 0)))
