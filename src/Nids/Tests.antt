-- ===== src/Nids/Tests.antt =====
-- Names added and found.
use vitarecomp.Base.{ℕ, List, ◌≡◌, ◌≢◌, some, [], ◌∷◌}
use vitarecomp.Nids.{NidDb, clip, add_func, nid_func_name}
use vitarecomp.Nids.Laws.{or_else, IsFirst, IsNew, nid_func_name-add_func}

abbrev one_name : NidDb
one_name = record { funcs = record { lib_nid = 1; func_nid = 7; name = 65 ∷ [] } ∷ []; libs = [] }

nid_func_name-add_func_example :
    (IsNew one_name.funcs 2 7
      → nid_func_name (some (add_func one_name 2 7 (66 ∷ []))) 2 7 ≡ some (clip (66 ∷ [])))
    × ((old : List ℕ)
        → IsFirst one_name.funcs 2 7 old
        → nid_func_name (some (add_func one_name 2 7 (66 ∷ []))) 2 7 ≡ some old)
    × ((other : ℕ)
        → other ≢ 2
        → nid_func_name (some (add_func one_name 2 7 (66 ∷ []))) other 7
          ≡ or_else (nid_func_name (some one_name) other 7) (some (clip (66 ∷ []))))
    × ((other g : ℕ)
        → g ≢ 7
        → nid_func_name (some (add_func one_name 2 7 (66 ∷ []))) other g
          ≡ nid_func_name (some one_name) other g)
nid_func_name-add_func_example = nid_func_name-add_func one_name 2 7 (66 ∷ [])
