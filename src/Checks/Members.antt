-- ===== src/Checks/Members.antt =====
-- Files of the list of servers at concrete inputs, with the last newline and without.
use fusionfs_cache.Io.{Reply, result}
use fusionfs_cache.Prelude.{ℕ, ◌≡◌, refl, some, [], ◌∷◌, codes, pos}
use fusionfs_cache.Zht.Members.{get_membership, decimal, is_empty}
use fusionfs_cache.Zht.Members.Cut.{get_membership-file_cut}
use fusionfs_cache.Zht.Members.Listed.{Line, IsLine, server_of, get_membership-servers_of}

-- The name service knows every host.
abbrev known : ℕ → Reply
known i = record { ret = pos 1; num = pos 0; payload = [] }

abbrev line_a : Line
line_a = record { name = codes "a"; digits = codes "50" }

abbrev line_b : Line
line_b = record { name = codes "b"; digits = codes "51" }

line_a-IsLine : IsLine line_a
unfolding decimal is_empty
line_a-IsLine = record { word = refl; named = refl; number = refl; shown = refl; small = refl }

line_b-IsLine : IsLine line_b
unfolding decimal is_empty
line_b-IsLine = record { word = refl; named = refl; number = refl; shown = refl; small = refl }

get_membership-servers_of_example :
    result known (get_membership (some (codes "a 50\nb 51\n")))
    ≡ some (server_of (codes "a") 50 ∷ server_of (codes "b") 51 ∷ [])
unfolding decimal
get_membership-servers_of_example =
    get_membership-servers_of known (λ i. refl) line_a (line_b ∷ [])
      (line_a-IsLine, (line_b-IsLine, tt))

get_membership-file_cut_example :
    result known (get_membership (some (codes "a 50\nb 51"))) ≡ some (server_of (codes "a") 50 ∷ [])
unfolding decimal
get_membership-file_cut_example =
    get_membership-file_cut known (λ i. refl) line_b line_b-IsLine (line_a ∷ []) (line_a-IsLine, tt)
