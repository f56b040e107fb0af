-- ===== src/Server/Written.antt =====
-- The settings that a configuration file gives.
use wrensong_http_server.Prelude.{
  ℕ, ◌^◌, ◌<◌, ◌↔◌, ◌⊎◌, ◌≡◌, true, [], ◌∷◌, Option, none, some, if◌then◌else◌, Bool,
}
use wrensong_http_server.Prelude.Int.{ℤ, pos}
use wrensong_http_server.Cstring.{Chars, codes, same}
use wrensong_http_server.Config.Table.{Table}
use wrensong_http_server.Config.Table.Find.{find_value}
use wrensong_http_server.Config.Sink.{Sink}
use wrensong_http_server.Config.RoundTrip.Place.{View}
use wrensong_http_server.Legacy.Respond.{digits}

find_in_view : View → Chars → Chars → Option Chars
find_in_view [] name key = none
find_in_view ((n, es) ∷ v) name key =
    if same n name then find_value es key else find_in_view v name key

-- A setting that is a number: it is kept where the file has no such key, and else is what the decimal text says.
abbrev pub Number : Option Chars → ℤ → ℤ → Type 0
Number none old new = new ≡ old
Number (some text) old new = (n : ℕ) × (n < 2 ^ 31) × (text ≡ digits 20 n) × (new ≡ pos n)

-- A setting that is on or off
abbrev pub Flag : Option Chars → Bool → Bool → Type 0
Flag none old new = new ≡ old
Flag (some text) old new = (new ≡ true) ↔ ((text ≡ codes "on") ⊎ (text ≡ codes "true"))
