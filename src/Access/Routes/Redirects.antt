-- ===== src/Access/Routes/Redirects.antt =====
-- frontend/src/app/routePerms.ts: where a login may lead.
use Prim.Native.Char.{Char, code}
use k8s_platform.Common.{String, Bool, true, false, not, ◌&&◌, ◌||◌, if◌then◌else◌, nat_eq}

abbrev slash : Char
slash = "/"

abbrev backslash : Char
backslash = "\\"

abbrev is_char : Char → Char → Bool
is_char c d = nat_eq (code c) (code d)

-- A tab, a line feed or a carriage return.
abbrev is_blank : Char → Bool
is_blank c = nat_eq (code c) 9 || (nat_eq (code c) 10 || nat_eq (code c) 13)

-- How browsers read an address, by the URL standard: blanks are left out, and a backslash is a slash.
abbrev squeeze : String → String
squeeze String.[] = ""
squeeze (String.◌∷◌ c s) = let rest = squeeze s in if is_blank c then rest else String.◌∷◌ c rest

abbrev is_slash : Char → Bool
is_slash c = is_char c slash || is_char c backslash

-- One slash and not two, after which a host would stand.
abbrev is_absolute_path : String → Bool
is_absolute_path String.[] = false
is_absolute_path (String.◌∷◌ c String.[]) = is_slash c
is_absolute_path (String.◌∷◌ c (String.◌∷◌ d s)) = is_slash c && not (is_slash d)

abbrev pub stays_on_site : String → Bool
stays_on_site s = is_absolute_path (squeeze s)

-- No blank and no backslash.
abbrev pub is_plain : String → Bool
is_plain String.[] = true
is_plain (String.◌∷◌ c s) = not (is_blank c || is_char c backslash) && is_plain s
