-- ===== src/Fm/SortDedup/Tests.antt =====
-- Runs of the sort and of the loop in place.
use dash_fabric.Base.{◌≡◌, refl, List, [], ◌∷◌, Bytes, bytes, contains, bytes_eq}
use dash_fabric.Base.Order.{IsAscending, sort, insert_sorted}
use dash_fabric.Fm.SortDedup.{sort_dedup, sort_dedup_lem}

abbrev peers : List Bytes
peers = bytes "v3" ∷ bytes "v1" ∷ bytes "v3" ∷ bytes "v2" ∷ bytes "v1" ∷ []

peers_sorted : sort_dedup peers ≡ bytes "v1" ∷ bytes "v2" ∷ bytes "v3" ∷ []
unfolding sort_dedup sort insert_sorted
peers_sorted = refl

sort_dedup_lem_example :
    IsAscending (sort_dedup peers)
    × ((b : Bytes) → contains b (sort_dedup peers) ≡ contains b peers)
sort_dedup_lem_example = sort_dedup_lem peers
