-- ===== src/Socket/Counting.antt =====
-- frontend/src/app/services/websocket.ts: the counts of `channelRefs`.
use k8s_platform.Common.{
  ℕ, ◌+◌, ◌-◌, String, ◌≡◌, refl, ap, ◌∙◌, true, false, inl, inr, Bool-cases, Option-cases, nat_eq,
  leb, ◌==◌, List, [], ◌∷◌, arith, coalesce, eq_iff, if◌then◌else◌,
}
use k8s_platform.Common.Dict.{get, put, del, get-put, get-del}
use k8s_platform.Text.{truthy}
use k8s_platform.Socket.{Client, Env, ClientAction, send_raw, subscribe_to, unsubscribe_from}
use k8s_platform.Socket.Hub.{Hub, subscribe_channel, unsubscribe_channel, on_instance, with_refs}

pub data Call : Type 0 where
  subscribes unsubscribes : String → Call

abbrev pub call : Hub → Call → Hub
call h (subscribes ch) = subscribe_channel h ch
call h (unsubscribes ch) = unsubscribe_channel h ch

abbrev pub calls : Hub → List Call → Hub
calls h [] = h
calls h (c ∷ cs) = calls (call h c) cs

abbrev pub count : Hub → String → ℕ
count h ch = coalesce (get h.env.refs ch) 0

-- The number of subscribers, told by the calls alone: a surplus unsubscribe has no effect.
abbrev pub tally : ℕ → String → List Call → ℕ
tally n ch [] = n
tally n ch (subscribes c ∷ cs) = tally (if c == ch then n + 1 else n) ch cs
tally n ch (unsubscribes c ∷ cs) = tally (if c == ch then n - 1 else n) ch cs

send_raw-refs : (c : Client) (e : Env) (a : ClientAction) → (send_raw c e a).1.refs ≡ e.refs
unfolding send_raw
send_raw-refs c e a = ground arith

subscribe_to-refs : (c : Client) (e : Env) (ch : String) → (subscribe_to c e ch).1.refs ≡ e.refs
unfolding subscribe_to send_raw
subscribe_to-refs c e ch = ground arith

unsubscribe_from-refs :
    (c : Client) (e : Env) (ch : String) → (unsubscribe_from c e ch).1.refs ≡ e.refs
unfolding unsubscribe_from send_raw
unsubscribe_from-refs c e ch = ground arith

on_instance-refs :
    (f : Client → Env → Client × Env) (h : Hub)
    → ((c : Client) (e : Env) → (f c e).1.refs ≡ e.refs)
    → (on_instance f h).env.refs ≡ h.env.refs
unfolding on_instance
on_instance-refs f h keeps = elim (Option-cases h.instance_) [
  | inl e ↦ rw (e, on_instance) refl
  | inr (c, e) ↦ rw (e, on_instance) (keeps c h.env)
]

refs-subscribe_channel :
    (h : Hub) (ch : String)
    → truthy ch ≡ true
    → (subscribe_channel h ch).env.refs ≡ put h.env.refs ch (count h ch + 1)
unfolding subscribe_channel
refs-subscribe_channel h ch t = elim (Bool-cases (nat_eq (count h ch + 1) 1)) [
  | inl first ↦
      rw (t, first)
        (on_instance-refs (λ c e. subscribe_to c e ch)
          (with_refs h (put h.env.refs ch (count h ch + 1))) (λ c e. subscribe_to-refs c e ch))
  | inr later ↦ rw (t, later) refl
]

refs-unsubscribe_channel :
    (h : Hub) (ch : String)
    → truthy ch ≡ true
    → (unsubscribe_channel h ch).env.refs
      ≡ (if leb (count h ch) 1 then del h.env.refs ch else put h.env.refs ch (count h ch - 1))
unfolding unsubscribe_channel
refs-unsubscribe_channel h ch t = elim (Bool-cases (leb (count h ch) 1)) [
  | inl last ↦
      rw (t, last)
        (on_instance-refs (λ c e. unsubscribe_from c e ch) (with_refs h (del h.env.refs ch))
          (λ c e. unsubscribe_from-refs c e ch))
  | inr more ↦ rw (t, more) refl
]

empty_ne : (a b : String) → truthy a ≡ false → truthy b ≡ true → (a == b) ≡ false
empty_ne a b e t = ground (arith, eq_iff a b)

subscribe_empty : (h : Hub) (ch : String) → truthy ch ≡ false → subscribe_channel h ch ≡ h
unfolding subscribe_channel
subscribe_empty h ch e = rw e

unsubscribe_empty : (h : Hub) (ch : String) → truthy ch ≡ false → unsubscribe_channel h ch ≡ h
unfolding unsubscribe_channel
unsubscribe_empty h ch e = rw e

pub count-subscribe_channel :
    (h : Hub) (ch c : String)
    → truthy c ≡ true
    → count (subscribe_channel h ch) c ≡ (if ch == c then count h c + 1 else count h c)
count-subscribe_channel h ch c t = elim (Bool-cases (truthy ch)) [
  | inl filled ↦
      rw (refs-subscribe_channel h ch filled)
        (ground (arith, get-put h.env.refs ch c (count h ch + 1), eq_iff ch c))
  | inr empty ↦ rw (subscribe_empty h ch empty, empty_ne ch c empty t)
]

pub count-unsubscribe_channel :
    (h : Hub) (ch c : String)
    → truthy c ≡ true
    → count (unsubscribe_channel h ch) c ≡ (if ch == c then count h c - 1 else count h c)
count-unsubscribe_channel h ch c t = elim (Bool-cases (truthy ch)) [
  | inl filled ↦ rw (refs-unsubscribe_channel h ch filled) (
      ground
        (arith, get-put h.env.refs ch c (count h ch - 1), get-del h.env.refs ch c, eq_iff ch c))
  | inr empty ↦ rw (unsubscribe_empty h ch empty, empty_ne ch c empty t)
]

-- Whatever the order of the calls, and whether or not a connection exists, `channelRefs` holds for
-- each channel but the empty one the number of its subscribers: calls to subscribe add one, calls to
-- unsubscribe take one off down to zero, and those of other channels leave it alone.
pub count-calls :
    (h : Hub) (cs : List Call) (ch : String)
    → truthy ch ≡ true
    → count (calls h cs) ch ≡ tally (count h ch) ch cs
count-calls h [] ch t = refl
count-calls h (subscribes c ∷ cs) ch t =
    count-calls (subscribe_channel h c) cs ch t
    ∙ ap (λ (n : ℕ). tally n ch cs) (count-subscribe_channel h c ch t)
count-calls h (unsubscribes c ∷ cs) ch t =
    count-calls (unsubscribe_channel h c) cs ch t
    ∙ ap (λ (n : ℕ). tally n ch cs) (count-unsubscribe_channel h c ch t)
