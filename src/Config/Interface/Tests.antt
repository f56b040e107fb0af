-- ===== src/Config/Interface/Tests.antt =====
-- A port stored in an empty table.
use wrensong_http_server.Prelude.{◌≡◌, refl, true, false, ◌&&◌}
use wrensong_http_server.Prelude.Int.{ℤ, pos}
use wrensong_http_server.Cstring.{Chars, codes, same, atoi}
use wrensong_http_server.Exec.{done}
use wrensong_http_server.Config.Table.{
  Table, empty_table, create_entry, check_entry, get_entry, get_entry_as_int,
}
use wrensong_http_server.Config.Table.Create.{IsValid}
use wrensong_http_server.Config.Interface.Filled.{made}
use wrensong_http_server.Config.Interface.Stored.{create_entry-get_entry_as_int}

create_entry-get_entry_as_int_example :
    (t' : Table) × (create_entry empty_table (codes "server") (codes "port") (codes "80") ≡ done t')
    × IsValid t'
    × ((old : ℤ) → get_entry_as_int t' (codes "server") (codes "port") old ≡ done (true, pos 80))
    × (check_entry t' (codes "server") (codes "port") ≡ true)
    × ((m k : Chars)
        → (same (codes "server") m && same (codes "port") k) ≡ false
        → get_entry t' m k ≡ get_entry empty_table m k)
unfolding atoi
create_entry-get_entry_as_int_example =
    create_entry-get_entry_as_int empty_table (codes "server") (codes "port") (codes "80") (pos 80)
      made refl
