-- ===== src/Api.antt =====
-- frontend/src/app/services: the endpoints of the RTK Query services, as the requests they send and
-- the cache tags they provide and invalidate. A query is refetched when a mutation invalidates a tag
-- that the query's last answer provided.
pub mod Rbac
pub mod Cluster
pub mod Resource
pub mod Version
pub mod Backup
pub mod Helm
mod Tests
use k8s_platform.Common.{
  ℕ, String, ◌≡◌, refl, Bool, true, false, ◌&&◌, ◌||◌, ◌==◌, Option, none, some, List, [], ◌∷◌,
  ◌++◌, arith, any, nat_eq, eq_refl,
}

pub data Method : Type 0 where
  get_ post put patch delete : Method

-- What `axiosBaseQuery` is given.
pub record Request (Params Body : Type 0) : Type 0 where
  pub url : String
  pub method : Method
  pub params : Option Params
  pub body : Option Body

pub data TagId : Type 0 where
  number : ℕ → TagId
  text : String → TagId

pub record Tag : Type 0 where
  pub of_type : String
  pub id : TagId

abbrev pub list_of : String → Tag
list_of type = record { of_type = type; id = text "LIST" }

abbrev pub same_id : TagId → TagId → Bool
same_id (number a) (number b) = nat_eq a b
same_id (text a) (text b) = a == b
same_id _ _ = false

abbrev pub same_tag : Tag → Tag → Bool
same_tag t u = t.of_type == u.of_type && same_id t.id u.id

-- Some invalidated tag is provided: the query is refetched.
abbrev pub refetched : List Tag → List Tag → Bool
refetched invalidated provided = any (λ t. any (same_tag t) provided) invalidated

same_id_refl : (i : TagId) → same_id i i ≡ true
same_id_refl (number a) = ground arith
same_id_refl (text a) = eq_refl a

pub same_tag_refl : (t : Tag) → same_tag t t ≡ true
same_tag_refl t = ground (arith, eq_refl t.of_type, same_id_refl t.id)

pub any-append_last :
    (p : Tag → Bool) (ts : List Tag) (t : Tag) → p t ≡ true → any p (ts ++ t ∷ []) ≡ true
any-append_last p [] t h = ground arith
any-append_last p (u ∷ ts) t h = ground (arith, any-append_last p ts t h)
