-- ===== src/PathMap/Tests.antt =====
-- Path maps at concrete values.
use trawlarr.Prelude.{
  ◌≡◌, ◌↔◌, refl, false, Option, none, some, List, [], ◌∷◌, codes, Str, str_eq, starts_with,
  includes, arith, Memᴰ,
}
use trawlarr.PathMap.{
  PathMapping, accepted, refused, within, validate_path_map, to_node, to_server, ends, map_path,
  nested_elsewhere,
}
use trawlarr.PathMap.RoundTrip.{map_path_round_trip, map_path-none_iff}

abbrev entry : Str → Str → PathMapping
entry server node = record { server_path = server; node_path = node }

abbrev raw : List (Option Str × Option Str)
raw =
    (some (codes "/media/"), some (codes "/mnt"))
    ∷ (some (codes "/media/tv"), some (codes "/mnt/tv"))
    ∷ []

abbrev media : List PathMapping
media = entry (codes "/media") (codes "/mnt") ∷ entry (codes "/media/tv") (codes "/mnt/tv") ∷ []

raw-accepted : validate_path_map (some raw) ≡ accepted media
unfolding validate_path_map starts_with str_eq includes
raw-accepted = refl

mapped : map_path media (codes "/media/tv/x.mkv") to_node ≡ some (codes "/mnt/tv/x.mkv")
unfolding map_path starts_with str_eq
mapped = refl

-- The map of the source's comment: the nested entry stands elsewhere on the node.
elsewhere :
    validate_path_map (
      some (
        (some (codes "/media"), some (codes "/mnt"))
        ∷ (some (codes "/media/tv"), some (codes "/mnt/shows"))
        ∷ []))
    ≡ refused (
        nested_elsewhere
          (entry (codes "/media") (codes "/mnt"))
          (entry (codes "/media/tv") (codes "/mnt/shows")))
unfolding validate_path_map starts_with str_eq includes
elsewhere = refl

map_path_round_trip_example :
    map_path media (codes "/mnt/tv/x.mkv") to_server ≡ some (codes "/media/tv/x.mkv")
map_path_round_trip_example =
    map_path_round_trip (some raw) media to_node (codes "/media/tv/x.mkv") (codes "/mnt/tv/x.mkv")
      raw-accepted (refl, λ e. ground arith) mapped

map_path-none_iff_example :
    (map_path media (codes "/other") to_node ≡ none)
    ↔ ((e : PathMapping) → Memᴰ e media → within (ends to_node e).0 (codes "/other") ≡ false)
map_path-none_iff_example = map_path-none_iff media to_node (codes "/other")

-- A path that ends with a slash does not come back from a node that maps to its root.
slash_lost :
    let map = entry (codes "/a") (codes "/") ∷ [] in
    (map_path map (codes "/a/") to_node ≡ some (codes "/"))
    × (map_path map (codes "/") to_server ≡ some (codes "/a"))
unfolding map_path starts_with str_eq
slash_lost = (refl, refl)
