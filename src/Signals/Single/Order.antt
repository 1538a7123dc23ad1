-- ===== src/Signals/Single/Order.antt =====
-- What postCallAnalysisTrigger/handler.js posts, and in which order.
use service_cloud_voice_lamb.Common.{◌≡◌, subst, String, Option, none, some, List, [], ◌∷◌}
use service_cloud_voice_lamb.Common.Effect.{ok, lift}
use service_cloud_voice_lamb.Common.Trace.{Only, only_rules, Only-pure, Only-lift}
use service_cloud_voice_lamb.Signals.Calls.{
  Metadata, Analysis, Contact, Signal, Call, Services, post, Event,
}
use service_cloud_voice_lamb.Signals.Chunks.{concat, slice_into_chunks-cut}
use service_cloud_voice_lamb.Signals.Analysis.{
  load_analysis, get_agent_timestamp, request_signals, post_of,
}
use service_cloud_voice_lamb.Signals.Posted.{
  Silent, IsSent, Sends, Sends-Only, Sends-bind, Sends-bind_right, Sends-attempt, Sends-bind_left,
  bind-IsSent, load-Silent, describe-Silent,
}
use service_cloud_voice_lamb.Signals.Single.{
  Kept, read_secret, get_secret_configs, generate_jwt, get_scrt_endpoint, persist_signals,
  send_batches, send_all, send_signals, process, handler,
}

module _ (svc : Services) where
  jwt-Silent : Only Silent (generate_jwt svc)
  unfolding generate_jwt get_secret_configs read_secret
  jwt-Silent = search only_rules

  endpoint-Silent : (kept : Kept) → Only Silent (get_scrt_endpoint svc kept)
  unfolding get_scrt_endpoint get_secret_configs read_secret
  endpoint-Silent none = search only_rules
  endpoint-Silent (some base) = search only_rules

  persist_signals-Sends :
      (kept : Kept) (contact : Option String) (events : List Signal)
      → Sends events (persist_signals svc kept contact events)
  unfolding persist_signals
  persist_signals-Sends kept contact events = Sends-bind_right events _ _ jwt-Silent (λ jwt.
      Sends-bind_right events _ _ (endpoint-Silent kept) (λ base.
        Sends-bind_left events _ _
          (Sends-attempt (post (post_of base contact jwt events)) svc.post tt) (λ u. Only-pure _)))

  send_batches-Sends :
      (kept : Kept) (contact : Option String) (batches : List (List Signal))
      → Sends (concat batches) (send_batches svc kept contact batches)
  unfolding send_batches
  send_batches-Sends kept contact [] = Sends-Only _ (Only-pure _)
  send_batches-Sends kept contact (batch ∷ rest) =
      Sends-bind batch (concat rest) _ _ (persist_signals-Sends kept contact batch)
        (λ kept'. send_batches-Sends kept' contact rest)

  send_signals-Sends :
      (kept : Kept) (contact : Option String) (signals : List Signal)
      → Sends signals (send_signals svc kept contact signals)
  unfolding send_signals send_all
  send_signals-Sends kept contact [] = Sends-Only _ (Only-pure _)
  send_signals-Sends kept contact (s ∷ signals) =
      let (batches, run, whole, full) = slice_into_chunks-cut (s ∷ signals) 24 in
      rw run (
        subst (λ l. Sends l (send_batches svc kept contact batches)) whole
          (send_batches-Sends kept contact batches))

-- If the file loads and gives the signals `all`, the lambda posts them in order: all of them if it
-- does not throw, and otherwise the first of them, up to the batch in which it fails.
pub single_handler-sends :
    (svc : Services) (kept : Kept) (e : Event) (t : List Call) (meta : Metadata) (a : Analysis)
    (contact : Contact) (all : List Signal)
    → (load_analysis svc e t).0 ≡ ok (some (meta, a))
    → (get_agent_timestamp svc meta (load_analysis svc e t).1).0 ≡ ok contact
    → request_signals a contact ≡ ok all
    → IsSent all t (handler svc kept e t).1 (handler svc kept e t).0
unfolding handler process lift
single_handler-sends svc kept e t meta a contact all p q r =
    let u = (load_analysis svc e t).1 in
    let v = (get_agent_timestamp svc meta u).1 in
    bind-IsSent all (load_analysis svc e) (process svc kept) t (some (meta, a)) (load-Silent svc e)
      p
      (bind-IsSent all (get_agent_timestamp svc meta) _ u contact (describe-Silent svc meta) q (
        bind-IsSent all (lift (request_signals a contact)) (send_signals svc kept meta.contact_id) v
          all (Only-lift _) r ((send_signals-Sends svc kept meta.contact_id all).at v)))
