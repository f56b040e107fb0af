-- ===== src/Server/Main/Tests.antt =====
-- A start without IPv6, from a configuration that did not load.
use wrensong_http_server.Prelude.{true, false}
use wrensong_http_server.Server.Main.{Answers}

abbrev willing : Answers
willing = record {
  base_made = true;
  bound4 = true;
  listens4 = true;
  bound6 = false;
  listens6 = false;
}
