-- ===== src/Tests/Aws.antt =====
-- The theorems on AWS at examples: a table with one route elsewhere, and the account after a run.
use cloud_route_manager.Base.{
  ◌≡◌, refl, Text, text_eq, codes, true, false, ◌&&◌, [], ◌∷◌, ◌==◌, none, contains,
}
use cloud_route_manager.Base.Maps.{lookup, insert}
use cloud_route_manager.Netip.{Prefix, prefix_eq, prefix_string, v4, masked, parse_prefix}
use cloud_route_manager.Aws.{
  index, eni_from_metadata, metadata, network_interface_id, sync_routes, sync_table, sync_tables,
  sync, sync_to, sync_described, sync_route, attempt, note, route_input, route_prefix, file_route,
}
use cloud_route_manager.Aws.Service.{GoesTo}
use cloud_route_manager.Aws.Runs.{sync_table-keeps}
use cloud_route_manager.Aws.Twice.{noops, sync_table_twice}
use cloud_route_manager.Aws.Tables.{sync-cached, sync-GoesTo}
use cloud_route_manager.Tests.Data.{office, both, both-IsReadBack, router}
use cloud_route_manager.Tests.Ec2.{Account, account, account-IsFaithful, routes_of, stored, held}

abbrev main : Text
main = codes "rtb-1"

abbrev spare : Text
spare = codes "rtb-2"

abbrev eni : Text
eni = codes "eni-1"

-- The office goes to another interface.
abbrev before : Account
before = (main, stored (route_input main (codes "eni-9") office)) ∷ []

abbrev after : Account
after = (sync_table account main both eni false before).1

-- The run reports no error, and its result is written out in `after`.
run :
    sync_table account main both eni false before
    ≡ (((sync_table account main both eni false before).0.0, none), after)
unfolding sync_table sync_described sync_routes note sync_route attempt lookup prefix_eq text_eq
    index route_prefix route_input file_route routes_of prefix_string parse_prefix insert masked
run = refl

other_table : (main == spare && contains both office) ≡ false
unfolding text_eq
other_table = refl

wanted : (contains both office ≡ true) × (contains (main ∷ spare ∷ []) spare ≡ true)
unfolding text_eq prefix_eq
wanted = (refl, refl)

sync_table-keeps_example :
    held (sync_table account main both eni false before).1 spare office ≡ held before spare office
unfolding account-IsFaithful
sync_table-keeps_example =
    sync_table-keeps account account-IsFaithful main eni both both-IsReadBack before spare office
      other_table

sync_table_twice_example :
    sync_table account main both eni false after ≡ ((noops main both, none), after)
sync_table_twice_example =
    sync_table_twice account main eni account-IsFaithful both both-IsReadBack before
      (sync_table account main both eni false before).0.0 after after (routes_of main after) [] run
      refl

sync_run : sync account [] (main ∷ spare ∷ []) both router false before ≡ (
  ((sync account [] (main ∷ spare ∷ []) both router false before).0.0, none),
  eni,
  (sync account [] (main ∷ spare ∷ []) both router false before).2,
)
unfolding sync sync_to network_interface_id eni_from_metadata metadata sync_tables sync_table
    sync_described sync_routes note sync_route attempt lookup prefix_eq text_eq index route_prefix
    route_input file_route routes_of prefix_string parse_prefix insert masked
sync_run = refl

sync-GoesTo_example :
    GoesTo eni (held (sync account [] (main ∷ spare ∷ []) both router false before).2 spare office)
unfolding account-IsFaithful
sync-GoesTo_example =
    sync-GoesTo account account-IsFaithful both both-IsReadBack [] (main ∷ spare ∷ []) router before
      (sync account [] (main ∷ spare ∷ []) both router false before).0.0 eni
      (sync account [] (main ∷ spare ∷ []) both router false before).2 spare office sync_run
      wanted.1 wanted.0

-- The second address is another one.
cached_run : sync account eni (main ∷ []) both (v4 7) false before ≡ (
  ((sync account eni (main ∷ []) both (v4 7) false before).0.0, none),
  eni,
  (sync account eni (main ∷ []) both (v4 7) false before).2,
)
unfolding sync sync_to network_interface_id sync_tables sync_table sync_described sync_routes note
    sync_route attempt lookup prefix_eq text_eq index route_prefix route_input file_route routes_of
    prefix_string parse_prefix insert masked
cached_run = refl

sync-cached_example :
    (eni ≡ eni)
    × ((u : Text) (q : Prefix)
        → contains (main ∷ []) u ≡ true
        → contains both q ≡ true
        → GoesTo eni (held (sync account eni (main ∷ []) both (v4 7) false before).2 u q))
unfolding account-IsFaithful
sync-cached_example =
    sync-cached account account-IsFaithful both both-IsReadBack eni (main ∷ []) (v4 7) before
      (sync account eni (main ∷ []) both (v4 7) false before).2
      (sync account eni (main ∷ []) both (v4 7) false before).0.0 eni refl cached_run
