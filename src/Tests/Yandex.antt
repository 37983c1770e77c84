-- ===== src/Tests/Yandex.antt =====
-- The theorems on Yandex Cloud at examples: a service that stores the rows it is sent.
use cloud_route_manager.Base.{
  ◌≡◌, refl, ap, ◌∙◌, sym, Text, text_eq, codes, true, false, List, [], ◌∷◌, none, Result, ok, err,
  contains, All, arith,
}
use cloud_route_manager.Netip.{Prefix, prefix_eq, addr_string}
use cloud_route_manager.Cloud.{Change, is_noop}
use cloud_route_manager.Yandex.Values.{str, bool}
use cloud_route_manager.Yandex.{
  Row, RouteTables, destination_key, next_hop_key, gateway_key, merge, sync_table, finish,
}
use cloud_route_manager.Yandex.Rows.{held, points}
use cloud_route_manager.Yandex.Merging.{merge-points}
use cloud_route_manager.Yandex.Kept.{merge-others, merge-Extends, others, Extends}
use cloud_route_manager.Yandex.Calls.{
  IsFaithful, changes-sync_table, world-sync_table, sync_table_again,
}
use cloud_route_manager.Tests.Data.{office, both, both-IsReadBack, router, router_string}

abbrev service : RouteTables
service = record {
  World = List Row;
  get_route_table = λ t rows. (ok rows, rows);
  update_static_routes = λ t sent rows. (none, sent);
}

abbrev rows_in : Result (List Row) → List Row
rows_in (ok rows) = rows
rows_in (err e) = []

service-IsFaithful : IsFaithful service
service-IsFaithful = record {
  stored = λ t rows rows' w w' w'' h g. sym (ap (λ r. rows_in r.0) g) ∙ sym (ap (λ r. r.1) h);
  read_twice = λ t rows rows' w w' w'' h g.
      sym (ap (λ r. rows_in r.0) g) ∙ (sym (ap (λ r. r.1) h) ∙ ap (λ r. rows_in r.0) h);
}

-- A row of the office that goes to a gateway, and a row of another network.
abbrev office_row : Row
office_row =
    (destination_key, str (codes "192.168.5.0/24"))
    ∷ (gateway_key, str (codes "gw"))
    ∷ (codes "labels", bool true)
    ∷ []

abbrev other_row : Row
other_row =
    (destination_key, str (codes "172.16.0.0/12")) ∷ (next_hop_key, str (codes "10.0.0.9")) ∷ []

abbrev table : Text
table = codes "enp"

abbrev rows : List Row
rows = other_row ∷ office_row ∷ []

abbrev hop : Text
hop = addr_string router

wanted : contains both office ≡ true
unfolding prefix_eq
wanted = refl

merge-points_example : points hop (held office (merge table both hop rows).desired) ≡ true
merge-points_example = merge-points table both hop router_string rows office both-IsReadBack wanted

merge-others_example :
    others table both hop (merge table both hop rows).desired ≡ others table both hop rows
merge-others_example = merge-others table both hop rows both-IsReadBack

merge-Extends_example : Extends table both hop rows (merge table both hop rows).desired
merge-Extends_example = merge-Extends table both hop rows

settled :
    (p : Prefix)
    → contains both p ≡ true
    → points hop (held p (merge table both hop rows).desired) ≡ true
settled p h = merge-points table both hop router_string rows p both-IsReadBack h

changes-sync_table_example :
    (sync_table service table both router false rows).0.0
    ≡ (sync_table service table both router true rows).0.0
changes-sync_table_example = changes-sync_table service table both router rows

world-sync_table_example : (sync_table service table both router true rows).1 ≡ rows
world-sync_table_example = world-sync_table service table both router rows

abbrev sent : List Row
sent = (sync_table service table both router false rows).1

run :
    sync_table service table both router false rows
    ≡ (((sync_table service table both router false rows).0.0, none), sent)
unfolding sync_table finish
run = ground arith

sync_table_again_example :
    (ds : List Change) × (sync_table service table both router false sent ≡ ((ds, none), sent))
    × All (λ c. is_noop c.action ≡ true) ds
sync_table_again_example =
    sync_table_again service service-IsFaithful table both router rows sent sent sent
      (sync_table service table both router false rows).0.0 both-IsReadBack router_string run refl
