-- ===== src/Api/Version.antt =====
-- frontend/src/app/services/version.ts: the stored versions of a resource.
use Prim.Native.String
use package.text.Mathlib.TextLemmas.{append_cancel_left, cons-append}
use k8s_platform.Common.{
  ℕ, String, ◌≡◌, ◌≢◌, sym, inl, inr, Bool, Option, none, some, List, [], ◌∷◌, arith, nat_eq,
  if◌then◌else◌, Bool-cases,
}
use k8s_platform.Api
use k8s_platform.Api.{
  Request, Method, Tag, number, text, list_of, refetched, same_tag, same_tag_refl, any-append_last,
}

pub record ResourceVersion : Type 0 where
  pub id : ℕ
  pub cluster_code : String
  pub namespace : Option String
  pub api_version : String
  pub kind : String
  pub name : String
  pub version_seq : ℕ
  pub raw_yaml : Option String
  pub change_summary : Option String
  pub operator : Option String
  pub source : Option String
  pub operator_id : Option ℕ
  pub created_at : Option String
  pub updated_at : Option String

pub record ListVersionsParams : Type 0 where
  pub code : String
  pub api_version : String
  pub kind : String
  pub namespace : Option String
  pub name : String

pub record ListVersionsResponse : Type 0 where
  pub items : List ResourceVersion
  pub total : ℕ

pub record GetVersionDiffParams : Type 0 where
  pub code : String
  pub api_version : String
  pub kind : String
  pub namespace : Option String
  pub name : String
  pub seq_a : ℕ
  pub seq_b : ℕ

pub record VersionDiffResponse : Type 0 where
  pub seq_a : ℕ
  pub seq_b : ℕ
  pub yaml_a : Option String
  pub yaml_b : Option String

pub record RollbackVersionParams : Type 0 where
  pub code : String
  pub api_version : String
  pub kind : String
  pub namespace : Option String
  pub name : String
  pub seq : ℕ

pub record RollbackResponse : Type 0 where
  pub rolled_back : Bool
  pub seq : ℕ
  pub object : Option String

-- 0 is the object as it is in the cluster, not a stored version.
abbrev pub current_version_seq : ℕ
current_version_seq = 0

unfoldable pub version_seq_label : (ℕ → String) → ℕ → String
version_seq_label show seq =
    if nat_eq seq current_version_seq then "当前版本" else String.◌++◌ "#" (show seq)

pub data Query : Type 0 where
  list_versions : ListVersionsParams → Query
  get_version_diff : GetVersionDiffParams → Query

abbrev pub Answer : Query → Type 0
Answer (list_versions p) = ListVersionsResponse
Answer (get_version_diff p) = VersionDiffResponse

-- A value of a parameter.
pub data Value : Type 0 where
  of_text : String → Value
  of_number : ℕ → Value
  undefined : Value

abbrev pub optional : Option String → Value
optional none = undefined
optional (some s) = of_text s

abbrev pub Fields : Type 0
Fields = List (String × Value)

abbrev object_fields : String → Option String → String → String → String → Fields → Fields
object_fields code namespace api_version kind name rest =
    ("cluster_code", of_text code)
    ∷ ("namespace", optional namespace)
    ∷ ("api_version", of_text api_version)
    ∷ ("kind", of_text kind)
    ∷ ("name", of_text name)
    ∷ rest

unfoldable pub query_request : Query → Request Fields Fields
query_request (list_versions p) = record {
  url = "/versions";
  method = Api.get_;
  params = some (object_fields p.code p.namespace p.api_version p.kind p.name []);
  body = none;
}
query_request (get_version_diff p) = record {
  url = "/versions/diff";
  method = Api.get_;
  params = some (
      object_fields p.code p.namespace p.api_version p.kind p.name
        (("seq_a", of_number p.seq_a) ∷ ("seq_b", of_number p.seq_b) ∷ []));
  body = none;
}

unfoldable pub rollback_request : RollbackVersionParams → Request Fields Fields
rollback_request p = record {
  url = "/versions/rollback";
  method = Api.post;
  params = none;
  body = some (
      object_fields p.code p.namespace p.api_version p.kind p.name (("seq", of_number p.seq) ∷ []));
}

unfoldable pub provides : (q : Query) → List Tag
provides (list_versions p) = list_of "Version" ∷ []
provides (get_version_diff p) = []

unfoldable pub rollback_invalidates : RollbackVersionParams → List Tag
rollback_invalidates p = list_of "Version" ∷ []

not_hash : (t : String) → "当前版本" ≢ String.◌++◌ "#" t
not_hash t e = cc (e, cons-append "#" "" t)

-- Two versions with the same label are the same, where `show` writes different numbers differently.
pub version_seq_label-injective :
    (show : ℕ → String)
    → ((a b : ℕ) → show a ≡ show b → a ≡ b)
    → (a b : ℕ) → version_seq_label show a ≡ version_seq_label show b
    → a ≡ b
unfolding version_seq_label
version_seq_label-injective show inj a b e =
    let hash = λ (n : ℕ). cons-append "#" "" (show n) in
    elim (Bool-cases (nat_eq a current_version_seq)) [
      | inl zero_a ↦ elim (Bool-cases (nat_eq b current_version_seq)) [
        | inl zero_b ↦ ground arith
        | inr some_b ↦
            let bad : "当前版本" ≡ String.◌++◌ "#" (show b) = rw (zero_a, some_b) at e in
            absurd (not_hash (show b) bad)
      ]
      | inr some_a ↦ elim (Bool-cases (nat_eq b current_version_seq)) [
        | inl zero_b ↦
            let bad : String.◌++◌ "#" (show a) ≡ "当前版本" = rw (some_a, zero_b) at e in
            absurd (not_hash (show a) (sym bad))
        | inr some_b ↦
            let same : String.◌++◌ "#" (show a) ≡ String.◌++◌ "#" (show b) =
              rw (some_a, some_b) at e in
            inj a b (append_cancel_left "#" _ _ same)
      ]
    ]
