-- ===== src/Voicemail/Packaging/Routing.antt =====
-- How often voiceMailPackaging/handler.js routes a voicemail, and how it ends.
use service_cloud_voice_lamb.Common.{
  ℕ, zero, suc, ◌*◌, ◌≡◌, refl, ap, String, Bool, true, false, Option, none, some, List, [], ◌∷◌,
  ◌++◌, truthy, if◌then◌else◌, arith, append_assoc,
}
use service_cloud_voice_lamb.Common.Text.{ends_with}
use service_cloud_voice_lamb.Common.Object.{Object, get}
use service_cloud_voice_lamb.Common.Effect.{Attempt, ok, pure, ◌>>=◌}
use service_cloud_voice_lamb.Common.Cost.{
  Costs, Costs-pure, Costs-raise, Costs-call, Costs-free, Costs-if, Costs-bind, Costs-bind_left,
  Costs-bind_right, Costs-handle_left, Costs-weaken,
}
use service_cloud_voice_lamb.Voicemail.Packaging.{
  Call, get_object_tagging, get_object, wait, invoke, delete_job, Invocation, convert, message,
  omni_flow, close, Response, Services, Event, wav_key_of, contact_of, first_transcript, route,
  pack, results, handler,
}

-- One for a routing, and the seconds that are waited.
abbrev pub is_routing : Call → ℕ
is_routing (invoke contact (omni_flow dialed)) = 1
is_routing c = 0

abbrev pub waited : Call → ℕ
waited (wait seconds) = seconds
waited c = 0

module _ (svc : Services) (contact : String) (dialed : Option String) where
  route_routings :
      (n : ℕ) (last : Option Response) → Costs is_routing n (route svc contact dialed n last)
  unfolding route
  route_routings zero last = Costs-pure _
  route_routings (suc n) last = Costs-bind_right _ _ (Costs-free _ _ refl) λ u.
      Costs-bind 1 n _ _ (omega arith) (Costs-call _ _) λ answer.
        Costs-if n _ _ _ (route_routings n (some answer))
          (Costs-weaken (omega arith) (Costs-pure _))

  route_waits :
      (n : ℕ) (last : Option Response)
      → Costs waited (n * svc.delay) (route svc contact dialed n last)
  unfolding route
  route_waits zero last = Costs-weaken (omega arith) (Costs-pure _)
  route_waits (suc n) last =
      Costs-bind svc.delay (n * svc.delay) _ _ (omega arith) (Costs-call _ _) λ u.
        Costs-bind_right _ _ (Costs-free _ _ refl) λ answer.
          Costs-if (n * svc.delay) _ _ _ (route_waits n (some answer))
            (Costs-weaken (omega arith) (Costs-pure _))

first_transcript_free : {w : Call → ℕ} (l : List String) → Costs w 0 (first_transcript l)
first_transcript_free [] = Costs-raise _
first_transcript_free (s ∷ l) = Costs-pure _

pack-Costs :
    (w : Call → ℕ) (n : ℕ) (svc : Services) (bucket key : String)
    → ((b k : String) → w (get_object_tagging b k) ≡ 0)
    → ((b k : String) → w (get_object b k) ≡ 0)
    → ((c : String) (i : Invocation) → (is_routing (invoke c i) ≡ 0) → w (invoke c i) ≡ 0)
    → ((c : String) → w (delete_job c) ≡ 0)
    → ((d : Option String) → Costs w n (route svc (contact_of key) d 4 none))
    → Costs w n (pack svc bucket key)
unfolding pack
pack-Costs w n svc bucket key a b c e r = Costs-bind_right _ _ (Costs-free _ _ (a _ _)) λ tags.
    Costs-bind_right _ _ (Costs-free _ _ (b _ _)) λ found.
      Costs-bind_right _ _ (first_transcript_free found) λ transcript.
        Costs-bind_right _ _ (Costs-free _ _ (c _ _ refl)) λ created.
          Costs-bind_right _ _ (Costs-free _ _ (c _ _ refl)) λ sent.
            Costs-bind_left _ _ (r _) λ routed.
              Costs-bind_right _ _ (Costs-free _ _ (c _ _ refl))
                λ closed. Costs-bind_right _ _ (Costs-free _ _ (e _)) λ deleted. Costs-pure _

handler-Costs :
    (w : Call → ℕ) (n : ℕ) (svc : Services) (e : Event)
    → Costs w n (pack svc e.bucket e.key)
    → Costs w n (handler svc e)
unfolding handler
handler-Costs w n svc e c =
    Costs-if n _ _ _
      (Costs-handle_left _ _ (Costs-bind_left _ _ c λ r. Costs-pure _) λ err. Costs-raise _)
      (Costs-weaken (omega arith) (Costs-pure _))

-- Whatever the services answer, one transcript is routed at most four times, and the lambda waits
-- at most four times the delay that is configured.
pub handler_routings :
    (svc : Services) (e : Event)
    → Costs is_routing 4 (handler svc e) × Costs waited (4 * svc.delay) (handler svc e)
handler_routings svc e = (
  handler-Costs is_routing 4 svc e (
      pack-Costs is_routing 4 svc e.bucket e.key (λ b k. refl) (λ b k. refl) (λ c i p. p)
        (λ c. refl) (λ d. route_routings svc _ d 4 none)),
  handler-Costs waited (4 * svc.delay) svc e (
      pack-Costs waited (4 * svc.delay) svc e.bucket e.key (λ b k. refl) (λ b k. refl)
        (λ c i p. refl) (λ c. refl) (λ d. route_waits svc _ d 4 none)),
)

-- Every service answers, as the lambda does also where the invoked function fails.
pub record Answers (svc : Services) : Type 0 where
  pub tags : (t : List Call) → (o : Object String) × (svc.tags t ≡ ok o)
  pub transcript :
      (t : List Call) → (s : String) × (rest : List String) × (svc.transcripts t ≡ ok (s ∷ rest))
  pub invoke : (t : List Call) → (r : Response) × (svc.invoke t ≡ ok r)
  pub delete_job : (t : List Call) → (r : Response) × (svc.delete_job t ≡ ok r)

module _ (svc : Services) (answers : Answers svc) (contact : String) (dialed : Option String) where
  Ends : (n : ℕ) (last : Option Response) (t : List Call) → Type 0
  Ends n last t =
      (r : Option Response) × (u : List Call) × (route svc contact dialed n last t ≡ (ok r, u))

  choose :
      (b : Bool) (n : ℕ) (a : Option Response) (t : List Call)
      → Ends n a t
      → (r : Option Response) × (u : List Call) × ((if b
              then route svc contact dialed n a
              else pure a)
            t
          ≡ (ok r, u))
  unfolding ◌>>=◌ Ends
  choose true n a t h = h
  choose false n a t h = (a, t, refl)

  route-Ends : (n : ℕ) (last : Option Response) (t : List Call) → Ends n last t
  unfolding Ends route ◌>>=◌
  route-Ends zero last t = (last, t, refl)
  route-Ends (suc n) last t =
      let found = answers.invoke (t ++ wait svc.delay ∷ []) in
      rw (found.1)
        (choose (truthy found.0.function_error) n (some found.0) _ (route-Ends n (some found.0) _))

abbrev conversion : Object String → Invocation
conversion tags = convert (record {
  recording_location = get "vm_recordingUrl" tags;
  total_recording_duration = get "vm_duration" tags;
  start_time = get "vm_initTimestamp" tags;
  end_time = get "vm_endTimestamp" tags;
})

-- If no service throws, the voicemail of a transcript is closed and its transcription job deleted,
-- as the last two calls, and the lambda answers, whatever the routing attempts answered.
pub handler-closes :
    (svc : Services) (e : Event) (t : List Call)
    → Answers svc
    → ends_with e.key ".json" ≡ true
    → (o : List (Option Response)) × (front : List Call) × (handler svc e t ≡ (
      ok (results o),
      front ++ invoke (contact_of e.key) close ∷ delete_job (contact_of e.key) ∷ [],
    ))
unfolding Ends handler pack ◌>>=◌
handler-closes svc e t a h =
    let c = contact_of e.key in
    let t1 = t ++ get_object_tagging e.bucket (wav_key_of e.key) ∷ [] in
    let t2 = t1 ++ get_object e.bucket e.key ∷ [] in
    let tags = (a.tags t).0 in
    let said = (a.transcript t1).0 in
    let t3 = t2 ++ invoke c (conversion tags) ∷ [] in
    let t4 =
      t3
      ++ invoke c (message said (get "vm_initTimestamp" tags) (get "vm_endTimestamp" tags)) ∷ [] in
    let routed = route-Ends svc a c (get "vm_dialedNumber" tags) 4 none t4 in
    let u = routed.1 in
    let u1 = u ++ invoke c close ∷ [] in
    let o : List (Option Response) =
      some (a.invoke t2).0
      ∷ some (a.invoke t3).0
      ∷ routed.0
      ∷ some (a.invoke u).0
      ∷ some (a.delete_job u1).0
      ∷ [] in
    (
      o,
      u,
      rw
          (
            h,
            (a.tags t).1,
            (a.transcript t1).2,
            (a.invoke t2).1,
            (a.invoke t3).1,
            routed.2,
            (a.invoke u).1,
            (a.delete_job u1).1,
          )
          (ap (λ l. (Attempt.ok (results o), l))
            (append_assoc u (invoke c close ∷ []) (delete_job c ∷ []))),
    )
