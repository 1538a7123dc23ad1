-- ===== src/Signals/Posted.antt =====
-- Which signals a computation of postCallAnalysisTrigger or multiorgPostCallAnalysisTrigger posts: the
-- rules, one for each way to build a computation.

use service_cloud_voice_lamb.Common.{
  ◌≡◌, refl, sym, ap, subst, ◌∙◌, All, List, [], ◌∷◌, ◌++◌, append-nil, append_assoc,
}
use service_cloud_voice_lamb.Common.Effect.{
  ok, throw, Result, Exec, pure, lift, call, continue, handle, ◌>>=◌,
}
use service_cloud_voice_lamb.Common.Trace.{Extends, Only, only_rules}
use service_cloud_voice_lamb.Signals.Analysis.{load_file, load_analysis, get_agent_timestamp}
use service_cloud_voice_lamb.Signals.Calls.{Metadata, Signal, Call, post, Services, Event}

-- The signals that a call posts.
abbrev pub events_of : Call → List Signal
events_of (post p) = p.events
events_of c = []

-- The signals of all posts in a trace, in the order in which they were sent.
abbrev pub posted : List Call → List Signal
posted [] = []
posted (c ∷ t) = events_of c ++ posted t

pub posted-append : (t u : List Call) → posted (t ++ u) ≡ posted t ++ posted u
posted-append [] u = refl
posted-append (c ∷ t) u =
    ap (λ l. events_of c ++ l) (posted-append t u)
    ∙ sym (append_assoc (events_of c) (posted t) (posted u))

-- A result that is no error leaves nothing unsent.
abbrev pub IsComplete : {A : Type 0} → Result A → List Signal → Type 0
IsComplete (ok a) rest = rest ≡ []
IsComplete (throw e) rest = Unit

-- From the trace `t` to the trace `u` the first of the signals `all` are posted, in order; where the
-- result `r` is no error, they all are.
abbrev pub IsSent : {A : Type 0} → List Signal → List Call → List Call → Result A → Type 0
IsSent all t u r =
    (sent : List Signal) × (rest : List Signal) × (posted u ≡ posted t ++ sent)
    × (sent ++ rest ≡ all)
    × IsComplete r rest

pub record Sends {A : Type 0} (all : List Signal) (m : Exec Call A) : Type 0 where
  pub at : (t : List Call) → IsSent all t (m t).1 (m t).0

IsComplete-nil : {A : Type 0} (r : Result A) → IsComplete r []
IsComplete-nil (ok a) = refl
IsComplete-nil (throw e) = tt

-- Calls that post nothing.
abbrev pub Silent : Call → Type 0
Silent c = events_of c ≡ []

posted-Extends : (t u : List Call) → Extends Silent t u → posted u ≡ posted t
posted-Extends t u (more, p, h) =
    ap posted p
    ∙ posted-append t more
    ∙ ap (λ l. posted t ++ l) (nothing more h)
    ∙ append-nil (posted t)
  where
    nothing : (l : List Call) → All Silent l → posted l ≡ []
    nothing [] h = refl
    nothing (c ∷ l) (p, h) = rw (p, nothing l h) refl

module _ {A : Type 0} where
  pub Sends-Only : (m : Exec Call A) → Only Silent m → Sends [] m
  Sends-Only m o = record {
    at = λ t. (
      [],
      [],
      posted-Extends t (m t).1 (o.at t) ∙ sym (append-nil (posted t)),
      refl,
      IsComplete-nil (m t).0,
    );
  }

module _ {A B : Type 0} where
  continue-IsSent :
      (r : Result A) (f : A → Exec Call B) (xs ys : List Signal) (t u : List Call)
      → IsSent xs t u r
      → ((a : A) → Sends ys (f a))
      → IsSent (xs ++ ys) t (continue r f u).1 (continue r f u).0
  continue-IsSent (throw e) f xs ys t u (sent, rest, p, q, c) k =
      (sent, rest ++ ys, p, sym (append_assoc sent rest ys) ∙ ap (λ l. l ++ ys) q, tt)
  continue-IsSent (ok a) f xs ys t u (sent, rest, p, q, c) k =
      let (sent', rest', p', q', c') = (k a).at u in
      let whole : sent ≡ xs = sym (append-nil sent) ∙ ap (λ l. sent ++ l) (sym c) ∙ q in
      (
        sent ++ sent',
        rest',
        p' ∙ ap (λ l. l ++ sent') p ∙ append_assoc (posted t) sent sent',
        append_assoc sent sent' rest' ∙ ap (λ l. sent ++ l) q' ∙ ap (λ l. l ++ ys) whole,
        c',
      )

  pub Sends-bind :
      (xs ys : List Signal) (m : Exec Call A) (f : A → Exec Call B)
      → Sends xs m
      → ((a : A) → Sends ys (f a))
      → Sends (xs ++ ys) (m >>= f)
  unfolding ◌>>=◌
  Sends-bind xs ys m f s k = record {
    at = λ t. continue-IsSent (m t).0 f xs ys t (m t).1 (s.at t) k;
  }

  -- What comes before posts nothing.
  pub Sends-bind_right :
      (ys : List Signal) (m : Exec Call A) (f : A → Exec Call B)
      → Only Silent m
      → ((a : A) → Sends ys (f a))
      → Sends ys (m >>= f)
  Sends-bind_right ys m f o k = Sends-bind [] ys m f (Sends-Only m o) k

module _ {A B : Type 0} where
  -- What follows posts nothing.
  pub Sends-bind_left :
      (xs : List Signal) (m : Exec Call A) (f : A → Exec Call B)
      → Sends xs m
      → ((a : A) → Only Silent (f a))
      → Sends xs (m >>= f)
  Sends-bind_left xs m f s k =
      subst (λ l. Sends l (m >>= f)) (append-nil xs)
        (Sends-bind xs [] m f s (λ a. Sends-Only (f a) (k a)))

  -- A result that is known, of a computation that posts nothing.
  pub bind-IsSent :
      (all : List Signal) (m : Exec Call A) (f : A → Exec Call B) (t : List Call) (a : A)
      → Only Silent m
      → (m t).0 ≡ ok a
      → IsSent all (m t).1 (f a (m t).1).1 (f a (m t).1).0
      → IsSent all t ((m >>= f) t).1 ((m >>= f) t).0
  unfolding ◌>>=◌
  bind-IsSent all m f t a o p (sent, rest, q, r, c) =
      rw p (sent, rest, q ∙ ap (λ l. l ++ sent) (posted-Extends t (m t).1 (o.at t)), r, c)

posted-last : (t : List Call) (c : Call) → posted (t ++ c ∷ []) ≡ posted t ++ events_of c
posted-last t c = posted-append t (c ∷ []) ∙ ap (λ l. posted t ++ l) (append-nil (events_of c))

module _ {A : Type 0} where
  pub Sends-call : (c : Call) (answer : List Call → Result A) → Sends (events_of c) (call c answer)
  unfolding call
  Sends-call c answer = record {
    at = λ t.
        (events_of c, [], posted-last t c, append-nil (events_of c), IsComplete-nil (answer t));
  }

  recover-trace : (r : Result A) (x : A) (u : List Call) → (handle (lift r) (λ e. pure x) u).1 ≡ u
  unfolding handle lift pure
  recover-trace (ok a) x u = refl
  recover-trace (throw e) x u = refl

  -- A call whose errors are swallowed.
  pub Sends-attempt :
      (c : Call) (answer : List Call → Result A) (x : A)
      → Sends (events_of c) (handle (call c answer) (λ e. pure x))
  unfolding handle lift pure call
  Sends-attempt c answer x = record {
    at = λ t. (
      events_of c,
      [],
      ap posted (recover-trace (answer t) x (t ++ c ∷ [])) ∙ posted-last t c,
      append-nil (events_of c),
      IsComplete-nil _,
    );
  }

module _ (svc : Services) where
  pub load-Silent : (e : Event) → Only Silent (load_analysis svc e)
  unfolding load_analysis load_file
  load-Silent e = search only_rules depth 12

  pub describe-Silent : (meta : Metadata) → Only Silent (get_agent_timestamp svc meta)
  unfolding get_agent_timestamp
  describe-Silent meta = search only_rules
