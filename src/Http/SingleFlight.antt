-- ===== src/Http/SingleFlight.antt =====
-- frontend/src/app/services/request.ts: `refreshInFlight`, which the requests that fail with 401 in
-- the meantime share. An event is a failure that asks for a refresh, or the end of the refresh: the
-- token, or none where it threw or gave no token.
use k8s_platform.Common.{
  ℕ, ◌+◌, String, ◌≡◌, refl, sym, ap, ◌∙◌, Bool, true, false, Option, List, [], ◌∷◌, ◌++◌, map,
  arith, if◌then◌else◌,
}
use mathlib.Core.List.{append_assoc, map-append, append-nil}

pub data Event : Type 0 where
  fails : ℕ → Event
  settles : Option String → Event

-- `posts` counts the calls of `POST /auth/refresh`, `ends` those that have come back.
pub record Flight : Type 0 where
  pub in_flight : Bool
  pub waiting : List ℕ
  pub answers : List (ℕ × Option String)
  pub posts : ℕ
  pub ends : ℕ

abbrev pub grounded : Flight
grounded = record { in_flight = false; waiting = []; answers = []; posts = 0; ends = 0 }

-- With none in flight a failure starts a refresh; it waits for the one in flight in any case. The
-- end (`finally`) answers all who wait, in order, and clears the promise.
unfoldable pub step : Flight → Event → Flight
step s (fails i) =
    if s.in_flight
    then record s { waiting = s.waiting ++ i ∷ [] }
    else record s { in_flight = true; waiting = s.waiting ++ i ∷ []; posts = s.posts + 1 }
step s (settles r) =
    if s.in_flight
    then record s {
      in_flight = false;
      waiting = [];
      answers = s.answers ++ map (λ i. (i, r)) s.waiting;
      ends = s.ends + 1;
    }
    else s

unfoldable pub steps : Flight → List Event → Flight
steps s [] = s
steps s (e ∷ es) = steps (step s e) es

abbrev pub failed : List Event → List ℕ
failed [] = []
failed (fails i ∷ es) = i ∷ failed es
failed (settles r ∷ es) = failed es

abbrev pub ids : List (ℕ × Option String) → List ℕ
ids = map (λ a. a.0)

abbrev pub answered : Flight → List ℕ
answered s = ids s.answers

-- At most one refresh is under way, and somebody waits only while one is.
pub record IsValid (s : Flight) : Type 0 where
  pub one : s.posts ≡ (if s.in_flight then s.ends + 1 else s.ends)
  pub awaited : (if s.in_flight then [] else s.waiting) ≡ []

map-ids : (r : Option String) (is : List ℕ) → ids (map (λ i. (i, r)) is) ≡ is
map-ids r [] = refl
map-ids r (i ∷ is) = ap (◌∷◌ i) (map-ids r is)

step-IsValid : (s : Flight) (e : Event) → IsValid s → IsValid (step s e)
unfolding step
step-IsValid s (fails i) v = ground arith
step-IsValid s (settles r) v = ground arith

step-everyone :
    (s : Flight) (e : Event)
    → answered (step s e) ++ (step s e).waiting ≡ (answered s ++ s.waiting) ++ failed (e ∷ [])
unfolding step
step-everyone s (fails i) = ground (arith, append_assoc (answered s) s.waiting (i ∷ []))
step-everyone s (settles r) = ground (
  arith,
  map-append (λ (a : ℕ × Option String). a.0) s.answers (map (λ i. (i, r)) s.waiting),
  map-ids r s.waiting,
  append-nil (answered s ++ s.waiting),
  append-nil (answered s ++ s.waiting),
)

failed-cons : (e : Event) (es : List Event) → failed (e ∷ []) ++ failed es ≡ failed (e ∷ es)
failed-cons (fails i) es = refl
failed-cons (settles r) es = refl

steps_from :
    (s : Flight) (es : List Event)
    → IsValid s
    → IsValid (steps s es)
      × (answered (steps s es) ++ (steps s es).waiting ≡ (answered s ++ s.waiting) ++ failed es)
unfolding steps
steps_from s [] v = (v, sym (append-nil (answered s ++ s.waiting)))
steps_from s (e ∷ es) v =
    let (w, all) = steps_from (step s e) es (step-IsValid s e v) in
    (
      w,
      all
          ∙ ap (λ l. l ++ failed es) (step-everyone s e)
          ∙ append_assoc (answered s ++ s.waiting) (failed (e ∷ [])) (failed es)
          ∙ ap (◌++◌ (answered s ++ s.waiting)) (failed-cons e es),
    )

-- Through any order of failures and ends: at most one refresh is under way; somebody waits only
-- while one is; and those answered so far and those that wait are the requests that failed, each
-- once and in the order of their failures, so that none is lost and none is answered twice.
pub steps-shared :
    (es : List Event)
    → IsValid (steps grounded es)
      × (answered (steps grounded es) ++ (steps grounded es).waiting ≡ failed es)
steps-shared es = steps_from grounded es (record { one = refl; awaited = refl })
