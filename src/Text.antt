-- ===== src/Text.antt =====
-- The methods of JavaScript strings that the frontend uses, over the characters of a text.
-- Where a position does not leave the function, counting code points or UTF-16 units is the same.
use Prim.Native.Char.{Char, code}
use Prim.Native.String
use Prim.Native.String.append
use k8s_platform.Common.{
  ap, not, ◌≡◌, ◌≢◌, refl, arith, String, Bool, true, false, ◌&&◌, ◌||◌, Option, none, some, List,
  [], ◌∷◌, nat_eq, if◌then◌else◌,
}

-- `s` as a condition: the empty text is falsy.
abbrev pub truthy : String → Bool
truthy String.[] = false
truthy (String.◌∷◌ c s) = true

-- A `string | null | undefined` as a condition.
abbrev pub opt_truthy : Option String → Bool
opt_truthy none = false
opt_truthy (some s) = truthy s

-- `o || d`
abbrev pub or_text : Option String → String → String
or_text none d = d
or_text (some s) d = if truthy s then s else d

-- `s.startsWith(p)`
unfoldable pub starts_with : String → String → Bool
starts_with s String.[] = true
starts_with String.[] (String.◌∷◌ d p) = false
starts_with (String.◌∷◌ c s) (String.◌∷◌ d p) = nat_eq (code c) (code d) && starts_with s p

-- `s.includes(p)`
unfoldable pub includes : String → String → Bool
unfolding starts_with
includes String.[] p = starts_with String.[] p
includes (String.◌∷◌ c s) p = starts_with (String.◌∷◌ c s) p || includes s p

-- A text without `c`.
abbrev pub free : Char → String → Bool
free c String.[] = true
free c (String.◌∷◌ d s) = not (nat_eq (code d) (code c)) && free c s

-- Whether a text holds a character, and whether it is one without it.
pub includes-free : (c : Char) (s : String) → includes s (String.◌∷◌ c "") ≡ not (free c s)
unfolding includes starts_with
includes-free c String.[] = refl
includes-free c (String.◌∷◌ d s) = ground (arith, includes-free c s)

free_head : (c d : Char) (s : String) → free c (String.◌∷◌ d s) ≡ true → d ≢ c
free_head c d s f e = ground (arith, ap code e)

free_tail : (c d : Char) (s : String) → free c (String.◌∷◌ d s) ≡ true → free c s ≡ true
free_tail c d s f = ground arith

-- Up to the first `c` two equal texts agree, and so do the rests.
pub split_free :
    (c : Char) (a b r s : String)
    → free c a ≡ true
    → free c b ≡ true
    → String.◌++◌ a (String.◌∷◌ c r) ≡ String.◌++◌ b (String.◌∷◌ c s)
    → (a ≡ b) × (r ≡ s)
split_free c String.[] String.[] r s f g e =
    (refl, cc (append.nil (String.◌∷◌ c r), append.nil (String.◌∷◌ c s)))
split_free c String.[] (String.◌∷◌ d b) r s f g e =
    absurd (free_head c d b g (cc (append.nil (String.◌∷◌ c r), append.cons d b (String.◌∷◌ c s))))
split_free c (String.◌∷◌ d a) String.[] r s f g e =
    absurd (free_head c d a f (cc (append.cons d a (String.◌∷◌ c r), append.nil (String.◌∷◌ c s))))
split_free c (String.◌∷◌ d a) (String.◌∷◌ d' b) r s f g e =
    let cons = append.cons d a (String.◌∷◌ c r) in
    let cons' = append.cons d' b (String.◌∷◌ c s) in
    let (same, rest) =
      split_free c a b r s (free_tail c d a f) (free_tail c d' b g) (cc (cons, cons')) in
    (cc (cons, cons', same), rest)

pub truthy-append : (s t : String) → truthy s ≡ true → truthy (String.◌++◌ s t) ≡ true
truthy-append String.[] t h = cc
truthy-append (String.◌∷◌ c s) t h = rw (append.cons c s t)

-- `parts.join(sep)`
abbrev pub join : String → List String → String
join sep [] = ""
join sep (s ∷ []) = s
join sep (s ∷ t ∷ rest) = String.◌++◌ s (String.◌++◌ sep (join sep (t ∷ rest)))

-- `o ?? ''`, and `s || undefined`
abbrev pub text_of : Option String → String
text_of none = ""
text_of (some s) = s

abbrev pub or_none : String → Option String
or_none s = if truthy s then some s else none

pub or_text-some : (s : String) → or_text (some s) "" ≡ s
or_text-some String.[] = refl
or_text-some (String.◌∷◌ c s) = refl

pub or_text-none : (s : String) → or_text (or_none s) "" ≡ s
or_text-none String.[] = refl
or_text-none (String.◌∷◌ c s) = refl

pub or_text-truthy : (s d : String) → truthy s ≡ true → or_text (some s) d ≡ s
or_text-truthy s d h = rw h refl

-- `s.split(c)`, for a single character.
abbrev to_head : Char → List String → List String
to_head c [] = String.◌∷◌ c "" ∷ []
to_head c (s ∷ rest) = String.◌∷◌ c s ∷ rest

unfoldable pub split : Char → String → List String
split c String.[] = "" ∷ []
split c (String.◌∷◌ d s) =
    let rest = split c s in if nat_eq (code d) (code c) then "" ∷ rest else to_head d rest
