-- ===== src/Access/Permission/Granting.antt =====
-- frontend/src/hooks/usePermission.ts: when a code is granted, told without the search for a colon.
use Prim.Native.Char.{Char, code}
use Prim.Native.String
use Prim.Native.String.append
use text.Mathlib.TextEquality.{Char-path}
use k8s_platform.Common.{
  String, ◌≡◌, refl, true, false, ◌⊎◌, ◌↔◌, inl, inr, Option, none, some, arith, nat_eq, contains,
  Option-cases, Bool-cases,
}
use k8s_platform.Text.{truthy, free}
use k8s_platform.Slices.User.{CurrentUser}
use k8s_platform.Access.Permission.{colon, module_of, perms_of, is_admin, has_wildcard, has_perm}

-- A code of the module `m`: what stands before its first colon.
abbrev pub IsOf : String → String → Type 0
IsOf m s = (rest : String) × (s ≡ String.◌++◌ m (String.◌∷◌ colon rest)) × (free colon m ≡ true)

IsOf-cons :
    (c : Char) (m s : String)
    → nat_eq (code c) (code colon) ≡ false
    → IsOf m s
    → IsOf (String.◌∷◌ c m) (String.◌∷◌ c s)
IsOf-cons c m s ne (rest, e, f) =
    (rest, cc (e, append.cons c m (String.◌∷◌ colon rest)), ground arith)

module_of_sound : (s m : String) → module_of s ≡ some m → IsOf m s
unfolding module_of
module_of_sound String.[] m e = cc
module_of_sound (String.◌∷◌ c s) m e = elim (Bool-cases (nat_eq (code c) (code colon))) [
  | inl hit ↦
      let same : c ≡ colon = Char-path c colon (ground arith) in
      let taken : some "" ≡ some m = rw hit at e in
      let empty : "" ≡ m = cc in rw (← empty) (s, cc (same, append.nil (String.◌∷◌ colon s)), refl)
  | inr miss ↦ elim (Option-cases (module_of s)) [
    | inl nowhere ↦ let bad : ◌≡◌ {A = Option String} none (some m) = rw (miss, nowhere) at e in cc
    | inr (m', found) ↦
        let taken : some (String.◌∷◌ c m') ≡ some m = rw (miss, found) at e in
        let same : String.◌∷◌ c m' ≡ m = cc in
        rw (← same) (IsOf-cons c m' s miss (module_of_sound s m' found))
  ]
]

module_of_complete :
    (m rest : String)
    → free colon m ≡ true
    → module_of (String.◌++◌ m (String.◌∷◌ colon rest)) ≡ some m
unfolding module_of
module_of_complete String.[] rest f = rw (append.nil (String.◌∷◌ colon rest))
module_of_complete (String.◌∷◌ c m) rest f =
    rw (append.cons c m (String.◌∷◌ colon rest)) (ground (arith, module_of_complete m rest))

-- The four ways to hold a permission.
abbrev pub Grants : Option CurrentUser → String → Type 0
Grants user s =
    (is_admin user ≡ true)
    ⊎ (contains (perms_of user) "*:*" ≡ true)
    ⊎ (contains (perms_of user) s ≡ true)
    ⊎ ((m : String) × IsOf m s
        × (truthy m ≡ true)
        × (contains (perms_of user) (String.◌++◌ m ":*") ≡ true))

has_perm_sound : (user : Option CurrentUser) (s : String) → has_perm user s ≡ true → Grants user s
unfolding has_perm has_wildcard
has_perm_sound user s h = elim (Bool-cases (is_admin user)) [
  | inl admin ↦ inl admin
  | inr plain ↦ elim (Bool-cases (contains (perms_of user) "*:*")) [
    | inl all_of ↦ inr (inl all_of)
    | inr some_of ↦ elim (Bool-cases (contains (perms_of user) s)) [
      | inl listed ↦ inr (inr (inl listed))
      | inr unlisted ↦ elim (Option-cases (module_of s)) [
        | inl nowhere ↦ let bad : false ≡ true = ground arith in cc
        | inr (m, found) ↦
            inr (inr (inr (m, module_of_sound s m found, ground arith, ground arith)))
      ]
    ]
  ]
]

has_perm_complete :
    (user : Option CurrentUser) (s : String) → Grants user s → has_perm user s ≡ true
unfolding has_perm has_wildcard
has_perm_complete user s (inl admin) = ground arith
has_perm_complete user s (inr (inl all_of)) = ground arith
has_perm_complete user s (inr (inr (inl listed))) = ground arith
has_perm_complete user s (inr (inr (inr (m, (rest, e, f), t, c)))) =
    let found : module_of s ≡ some m = rw e (module_of_complete m rest f) in ground arith

-- A code is granted exactly to a platform administrator and to a user with the permission "*:*", the
-- code itself, or "m:*" for the part m before the code's first colon, if that is not empty.
pub has_perm_iff :
    (user : Option CurrentUser) (s : String) → (has_perm user s ≡ true) ↔ Grants user s
has_perm_iff user s = (has_perm_sound user s, has_perm_complete user s)
