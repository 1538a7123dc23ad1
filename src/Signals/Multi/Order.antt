-- ===== src/Signals/Multi/Order.antt =====
-- What multiorgPostCallAnalysisTrigger/handler.js posts, and in which order.
use service_cloud_voice_lamb.Common.{◌≡◌, refl, subst, String, Option, some, List, [], ◌∷◌}
use service_cloud_voice_lamb.Common.Effect.{ok, lift}
use service_cloud_voice_lamb.Common.Trace.{Only, only_rules, Only-pure, Only-lift, Only-call}
use service_cloud_voice_lamb.Signals.Calls.{
  Metadata, Analysis, Contact, Signal, Call, sign_jwt, post, Services, Event,
}
use service_cloud_voice_lamb.Signals.Chunks.{concat, slice_into_chunks-cut}
use service_cloud_voice_lamb.Signals.Analysis.{
  load_analysis, get_agent_timestamp, request_signals, post_of,
}
use service_cloud_voice_lamb.Signals.Posted.{
  Silent, IsSent, Sends, Sends-Only, Sends-bind, Sends-bind_right, Sends-call, bind-IsSent,
  load-Silent, describe-Silent,
}
use service_cloud_voice_lamb.Signals.Multi.{
  Config, jwt_params, retrieve_at, retrieve_from_cache, read_secret, get_secret_configs,
  secret_config, persist_signals, send_batches, send_all, send_signals, process, handler,
}

module _ (svc : Services) where
  secret_config-Silent : (contact : Option String) → Only Silent (secret_config svc contact)
  unfolding secret_config get_secret_configs read_secret retrieve_from_cache retrieve_at
  secret_config-Silent contact = search only_rules depth 12

  persist_signals-Sends :
      (contact : Option String) (events : List Signal) (c : Config)
      → Sends events (persist_signals svc contact events c)
  unfolding persist_signals
  persist_signals-Sends contact events c =
      Sends-bind_right events _ _ (Only-call (sign_jwt (jwt_params c)) svc.sign_jwt refl)
        (λ jwt. Sends-call (post (post_of c.scrt_endpoint_base contact jwt events)) svc.post)

  send_batches-Sends :
      (contact : Option String) (c : Config) (batches : List (List Signal))
      → Sends (concat batches) (send_batches svc contact c batches)
  unfolding send_batches
  send_batches-Sends contact c [] = Sends-Only _ (Only-pure _)
  send_batches-Sends contact c (batch ∷ rest) =
      Sends-bind batch (concat rest) _ _ (persist_signals-Sends contact batch c)
        (λ u. send_batches-Sends contact c rest)

  send_signals-Sends :
      (contact : Option String) (signals : List Signal)
      → Sends signals (send_signals svc contact signals)
  unfolding send_signals send_all
  send_signals-Sends contact [] = Sends-Only _ (Only-pure _)
  send_signals-Sends contact (s ∷ signals) =
      let (batches, run, whole, full) = slice_into_chunks-cut (s ∷ signals) 24 in
      Sends-bind_right (s ∷ signals) _ _ (secret_config-Silent contact) (λ c. rw run (
        subst (λ l. Sends l (send_batches svc contact c batches)) whole
          (send_batches-Sends contact c batches)))

-- If the file loads and gives the signals `all`, the lambda posts them in order: all of them if it
-- does not throw, and otherwise the first of them, up to the batch in which it fails.
pub multi_handler-sends :
    (svc : Services) (e : Event) (t : List Call) (meta : Metadata) (a : Analysis)
    (contact : Contact) (all : List Signal)
    → (load_analysis svc e t).0 ≡ ok (some (meta, a))
    → (get_agent_timestamp svc meta (load_analysis svc e t).1).0 ≡ ok contact
    → request_signals a contact ≡ ok all
    → IsSent all t (handler svc e t).1 (handler svc e t).0
unfolding handler process lift
multi_handler-sends svc e t meta a contact all p q r =
    let u = (load_analysis svc e t).1 in
    let v = (get_agent_timestamp svc meta u).1 in
    bind-IsSent all (load_analysis svc e) (process svc) t (some (meta, a)) (load-Silent svc e) p (
      bind-IsSent all (get_agent_timestamp svc meta) _ u contact (describe-Silent svc meta) q (
        bind-IsSent all (lift (request_signals a contact)) (send_signals svc meta.contact_id) v all
          (Only-lift _) r ((send_signals-Sends svc meta.contact_id all).at v)))
