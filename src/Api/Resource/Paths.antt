-- ===== src/Api/Resource/Paths.antt =====
-- frontend/src/app/services/resource.ts: the encoded path of an object.
use Prim.Native.Char.{Char}
use Prim.Native.String
use text.Mathlib.TextLemmas.{append_cancel_left, cons-append, nil-append}
use k8s_platform.Common.{
  String, ◌≡◌, ◌≢◌, refl, ap, sym, ◌∙◌, true, false, arith, Option, none, some, Bool-cases, inl,
  inr,
}
use k8s_platform.Text.{free, split_free, opt_truthy, or_text}
use k8s_platform.Api.Resource.{GetResourceParams, object_url, kind_url}

abbrev pub slash : Char
slash = "/"

-- Two texts that agree up to a slash, and behind it.
split_slash :
    (t : String) {a b r s : String}
    → free slash a ≡ true
    → free slash b ≡ true
    → String.◌++◌ a (String.◌++◌ (String.◌∷◌ slash t) r)
      ≡ String.◌++◌ b (String.◌++◌ (String.◌∷◌ slash t) s)
    → (a ≡ b) × (r ≡ s)
split_slash t {a} {b} {r} {s} f g e =
    let (same, rest) = split_free slash a b (String.◌++◌ t r) (String.◌++◌ t s) f g (
      ap (String.◌++◌ a) (sym (cons-append slash t r))
      ∙ e
      ∙ ap (String.◌++◌ b) (cons-append slash t s)) in
    (same, append_cancel_left t _ _ rest)

-- A text with a slash inside is not free of it.
slash_inside : (a r : String) → free slash (String.◌++◌ a (String.◌∷◌ slash r)) ≡ false
slash_inside String.[] r = rw (nil-append (String.◌∷◌ slash r)) (ground arith)
slash_inside (String.◌∷◌ c a) r =
    rw (cons-append c a (String.◌∷◌ slash r)) (ground (arith, slash_inside a r))

no_slash : (a r b : String) → free slash b ≡ true → String.◌++◌ a (String.◌++◌ "/" r) ≢ b
no_slash a r b f e =
    let one : String.◌++◌ "/" r ≡ String.◌∷◌ slash r =
      cons-append slash "" r ∙ ap (String.◌∷◌ slash) (nil-append r) in
    let same : String.◌++◌ a (String.◌∷◌ slash r) ≡ b = ap (String.◌++◌ a) (sym one) ∙ e in
    let here : free slash b ≡ false = rw (← same) (slash_inside a r) in cc

or_text_empty : (o : Option String) → opt_truthy o ≡ false → or_text o "" ≡ ""
or_text_empty none h = refl
or_text_empty (some s) h = ground arith

module _ (encode decode : String → String) where
  decoded : ((s : String) → decode (encode s) ≡ s) → {a b : String} → encode a ≡ encode b → a ≡ b
  decoded back {a} {b} e = sym (back a) ∙ ap decode e ∙ back b

  kind_url-split :
      ((s : String) → free slash (encode s) ≡ true)
      → ((s : String) → decode (encode s) ≡ s)
      → (c c' a a' k k' t t' : String)
      → kind_url encode c a k (String.◌++◌ "/" t) ≡ kind_url encode c' a' k' (String.◌++◌ "/" t')
      → (c ≡ c') × (a ≡ a') × (k ≡ k') × (t ≡ t')
  kind_url-split clean back c c' a a' k k' t t' e =
      let (cs, after) =
        split_slash "resources/" (clean c) (clean c') (append_cancel_left "/clusters/" _ _ e) in
      let (as_, after') = split_slash "" (clean a) (clean a') after in
      let (ks, ts) = split_slash "" (clean k) (clean k') after' in
      (decoded back cs, decoded back as_, decoded back ks, ts)

  url-within :
      (p : GetResourceParams)
      → opt_truthy p.namespace ≡ true
      → object_url encode p
        ≡ kind_url encode p.code p.api_version p.kind (
            String.◌++◌ "/"
              (String.◌++◌ (encode (or_text p.namespace "")) (String.◌++◌ "/" (encode p.name))))
  unfolding object_url
  url-within p h = rw h refl

  url-bare :
      (p : GetResourceParams)
      → opt_truthy p.namespace ≡ false
      → object_url encode p
        ≡ kind_url encode p.code p.api_version p.kind (String.◌++◌ "/" (encode p.name))
  unfolding object_url
  url-bare p h = rw h refl

  -- Where `encode` leaves no slash and `decode` undoes it: two objects have the same path only if
  -- they have the same cluster, version, kind, namespace (none and the empty one being the same) and
  -- name.
  pub object_url-injective :
      ((s : String) → free slash (encode s) ≡ true)
      → ((s : String) → decode (encode s) ≡ s)
      → (p q : GetResourceParams) → object_url encode p ≡ object_url encode q
      → (p.code ≡ q.code)
        × (p.api_version ≡ q.api_version)
        × (p.kind ≡ q.kind)
        × (or_text p.namespace "" ≡ or_text q.namespace "")
        × (p.name ≡ q.name)
  object_url-injective clean back p q e =
      let split =
        kind_url-split clean back p.code q.code p.api_version q.api_version p.kind q.kind in
      elim (Bool-cases (opt_truthy p.namespace)) [
        | inl p_in ↦ elim (Bool-cases (opt_truthy q.namespace)) [
          | inl q_in ↦
              let (c, a, k, tails) = split _ _ (sym (url-within p p_in) ∙ e ∙ url-within q q_in) in
              let (spaces, names) =
                split_slash "" (clean (or_text p.namespace "")) (clean (or_text q.namespace ""))
                  tails in
              (c, a, k, decoded back spaces, decoded back names)
          | inr q_out ↦
              let (c, a, k, tails) = split _ _ (sym (url-within p p_in) ∙ e ∙ url-bare q q_out) in
              absurd
                (no_slash (encode (or_text p.namespace "")) (encode p.name) _ (clean q.name) tails)
        ]
        | inr p_out ↦ elim (Bool-cases (opt_truthy q.namespace)) [
          | inl q_in ↦
              let (c, a, k, tails) = split _ _ (sym (url-bare p p_out) ∙ e ∙ url-within q q_in) in
              absurd (
                no_slash (encode (or_text q.namespace "")) (encode q.name) _ (clean p.name)
                  (sym tails))
          | inr q_out ↦
              let (c, a, k, tails) = split _ _ (sym (url-bare p p_out) ∙ e ∙ url-bare q q_out) in
              let none_both =
                or_text_empty p.namespace p_out ∙ sym (or_text_empty q.namespace q_out) in
              (c, a, k, none_both, decoded back tails)
        ]
      ]
