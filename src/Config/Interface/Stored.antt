-- ===== src/Config/Interface/Stored.antt =====
-- The client of the ini library, over lib/tconfig.c.
use wrensong_http_server.Prelude.{◌≡◌, true, false, ◌&&◌}
use wrensong_http_server.Prelude.Int.{ℤ}
use wrensong_http_server.Cstring.{Chars, same, atoi}
use wrensong_http_server.Exec.{done}
use wrensong_http_server.Config.Table.{
  Table, create_entry, check_entry, get_entry, get_entry_as_int,
}
use wrensong_http_server.Config.Table.Create.{IsValid}
use wrensong_http_server.Config.Interface.Filled.{library}
use wrensong_http_server.Config.Interface.Client.{Stored, add-int_of}

-- A number stored as a text that `atoi` can convert is read back: after `ini_table_create_entry` in a
-- valid table, the table is valid, `ini_table_get_entry_as_int` gives the number and success,
-- `ini_table_check_entry` finds the entry, and every other entry reads as before.
pub create_entry-get_entry_as_int :
    (t : Table) (name key value : Chars) (n : ℤ)
    → IsValid t
    → atoi value ≡ done n
    → (t' : Table) × (create_entry t name key value ≡ done t')
      × IsValid t'
      × ((old : ℤ) → get_entry_as_int t' name key old ≡ done (true, n))
      × (check_entry t' name key ≡ true)
      × ((m k : Chars) → (same name m && same key k) ≡ false → get_entry t' m k ≡ get_entry t m k)
create_entry-get_entry_as_int t name key value n v h =
    let s : Stored library t name key value n = add-int_of library t name key value n v h in
    (s.after, s.stored, s.made, s.read_back, s.present, s.others_kept)
