-- ===== src/Storage.antt =====
-- The browser's `localStorage`, which the slices and the request layer read and write: a parameter
-- of their models, with the laws of the Web Storage interface.
use k8s_platform.Common.{String, ◌≡◌, refl, Option, none, some, ◌==◌, if◌then◌else◌}

pub record WebStorage : Type 1 where
  pub Store : Type 0
  pub get_item : Store → String → Option String
  pub set_item : Store → String → String → Store
  pub remove_item : Store → String → Store
  pub get-set :
      (s : Store) (k v j : String)
      → get_item (set_item s k v) j ≡ (if k == j then some v else get_item s j)
  pub get-remove :
      (s : Store) (k j : String)
      → get_item (remove_item s k) j ≡ (if k == j then none else get_item s j)

-- A map of the keys meets the laws.
abbrev pub map_storage : WebStorage
map_storage = record {
  Store = String → Option String;
  get_item = λ s j. s j;
  set_item = λ s k v j. if k == j then some v else s j;
  remove_item = λ s k j. if k == j then none else s j;
  get-set = λ s k v j. refl;
  get-remove = λ s k j. refl;
}

abbrev pub empty_store : map_storage.Store
empty_store = λ j. none
