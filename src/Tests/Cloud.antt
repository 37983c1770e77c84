-- ===== src/Tests/Cloud.antt =====
-- Changes at examples.
use cloud_route_manager.Base.{codes, refl, ◌≡◌, [], ◌∷◌, List}
use cloud_route_manager.Cloud.{Change, noop, replace, change_string}

abbrev changes : List Change
changes =
    record { table = codes "rtb"; prefix = codes "10.0.0.0/8"; action = noop; prev_next_hop = [] }
    ∷ record {
      table = codes "rtb";
      prefix = codes "192.168.5.0/24";
      action = replace;
      prev_next_hop = codes "igw";
    }
    ∷ []

written :
    change_string (record {
      table = codes "rtb";
      prefix = codes "::/0";
      action = replace;
      prev_next_hop = codes "igw";
    })
    ≡ codes "replace ::/0 in rtb (was igw)"
unfolding change_string
written = refl
