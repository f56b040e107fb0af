-- ===== src/Config/RoundTrip/Tests.antt =====
-- A table written and read back.
use wrensong_http_server.Prelude.{◌≡◌, refl, false, true, [], ◌∷◌, map, some, All}
use wrensong_http_server.Cstring.{codes}
use wrensong_http_server.Exec.{done}
use wrensong_http_server.Config.Problem.{Policy}
use wrensong_http_server.Config.Table.{Table, empty_table}
use wrensong_http_server.Config.Table.Create.{IsValid}
use wrensong_http_server.Config.Sink.{Sink}
use wrensong_http_server.Config.Reader.{table_read}
use wrensong_http_server.Config.Writer.{Out, table_write, all_accepted}
use wrensong_http_server.Config.RoundTrip.Place.{section_view}
use wrensong_http_server.Config.RoundTrip.{SectionIsPlain, table_read-table_write}

abbrev policy : Policy
policy = record { has_handler = false; exit_on_error = true }

abbrev config : Table
config = record {
  sections =
      record {
        name = codes "s";
        entries =
            record { key = codes "port"; value = codes "80" }
            ∷ record { key = codes "n"; value = codes "4" }
            ∷ [];
        room = 10;
      }
      ∷ record { name = codes "t"; entries = []; room = 10 }
      ∷ [];
  room = 10;
}

config-IsPlain : All SectionIsPlain config.sections
config-IsPlain = (
  (
    (refl, tt),
    (((refl, (refl, (refl, (refl, tt)))), (refl, (refl, tt))), (((refl, tt), (refl, tt)), tt)),
  ),
  (((refl, tt), tt), tt),
)

table_read-table_write_example :
    (o : Out) × (k : Sink) × (t' : Table) × (table_write policy config (all_accepted [])
      ≡ done (true, o))
    × (table_read policy o.text false empty_table ≡ done (true, k))
    × (k.table ≡ some t')
    × (map section_view t'.sections ≡ map section_view config.sections)
    × (k.problems ≡ [])
    × IsValid t'
table_read-table_write_example = table_read-table_write policy config config-IsPlain
