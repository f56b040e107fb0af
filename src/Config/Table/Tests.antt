-- ===== src/Config/Table/Tests.antt =====
-- A table with one entry.
use wrensong_http_server.Prelude.{◌≡◌, arith, [], ◌∷◌, length}
use wrensong_http_server.Cstring.{codes}
use wrensong_http_server.Config.Table.{Table, get_entry, destroy}
use wrensong_http_server.Config.Table.Find.{find_in, get_entry-find_in}
use wrensong_http_server.Config.Table.Create.{IsValid, Created, create_entry-Created}
use wrensong_http_server.Config.Table.Destroy.{blocks, strings, without_strings, destroy-blocks}

abbrev port : Table
port = record {
  sections =
      record {
        name = codes "server";
        entries = record { key = codes "port"; value = codes "80" } ∷ [];
        room = 10;
      }
      ∷ [];
  room = 10;
}

port-IsValid : IsValid port
port-IsValid = record { sections_fit = ground arith; entries_fit = ground arith }

create_entry-Created_example : Created port (codes "server") (codes "host") (codes "a")
create_entry-Created_example =
    create_entry-Created port (codes "server") (codes "host") (codes "a") port-IsValid

get_entry-find_in_example :
    get_entry port (codes "server") (codes "port")
    ≡ find_in port.sections (codes "server") (codes "port")
get_entry-find_in_example = get_entry-find_in port (codes "server") (codes "port")

destroy-blocks_example :
    (destroy port ≡ without_strings (blocks port)) × (length (strings (blocks port)) ≡ 3)
destroy-blocks_example = destroy-blocks port
