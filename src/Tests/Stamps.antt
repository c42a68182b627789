-- ===== src/Tests/Stamps.antt =====
-- Events that the client sends, at concrete inputs.
use thermite_rs.Prelude.{List, Option, Text, [], codes, none, some, ◌∷◌, ◌≡◌}
use thermite_rs.Json.{or_else}
use thermite_rs.Sdk.Event.{Breadcrumb, Event, User, message_event, new_breadcrumb, warning}
use thermite_rs.Sdk.Scope.{Client, find_key, new_scope, stamped}
use thermite_rs.Sdk.Stamps.{
  add_breadcrumbs, configured, latest, listed, named, stamped_lem, with_scope,
}

abbrev client : Client
client = record {
  release = some (codes "app@1.0");
  environment = none;
  server_name = none;
  contexts = [];
  scope = new_scope 2;
}

abbrev three : List Breadcrumb
three =
    new_breadcrumb 1 (codes "first")
    ∷ new_breadcrumb 2 (codes "second")
    ∷ new_breadcrumb 3 (codes "third")
    ∷ []

abbrev ambient : List (Text × Text)
ambient = (codes "component", codes "billing") ∷ []

abbrev anonymous : Option User
anonymous = some (record { id = none; username = none; email = none })

abbrev boom : Event
boom = message_event 7 9 (codes "boom") warning

abbrev sent_event : Event
sent_event =
    stamped (with_scope client (add_breadcrumbs three (configured 2 ambient anonymous))) boom

stamped_lem_example :
    (find_key (codes "component") sent_event.tags
      ≡ or_else (find_key (codes "component") boom.tags) (find_key (codes "component") ambient))
    × (find_key (codes "component") sent_event.contexts
        ≡ or_else (find_key (codes "component") boom.contexts) (find_key (codes "component") []))
    × (sent_event.user ≡ or_else boom.user (named anonymous))
    × (sent_event.breadcrumbs ≡ or_else boom.breadcrumbs (listed (latest 2 three)))
    × (sent_event ≡ record boom {
      release = or_else boom.release client.release;
      environment = or_else boom.environment client.environment;
      server_name = or_else boom.server_name client.server_name;
      tags = sent_event.tags;
      contexts = sent_event.contexts;
      user = sent_event.user;
      breadcrumbs = sent_event.breadcrumbs;
    })
stamped_lem_example = stamped_lem client 2 ambient anonymous three boom (codes "component")
