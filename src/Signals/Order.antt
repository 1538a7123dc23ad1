-- ===== src/Signals/Order.antt =====
-- What the handlers of postCallAnalysisTrigger and multiorgPostCallAnalysisTrigger post, side by side.
use service_cloud_voice_lamb.Common.{◌≡◌, some, List}
use service_cloud_voice_lamb.Common.Effect.{ok}
use service_cloud_voice_lamb.Signals.Calls.{
  Metadata, Analysis, Contact, Signal, Call, Services, Event,
}
use service_cloud_voice_lamb.Signals.Analysis.{load_analysis, get_agent_timestamp, request_signals}
use service_cloud_voice_lamb.Signals.Posted.{IsSent}
use service_cloud_voice_lamb.Signals.Single
use service_cloud_voice_lamb.Signals.Single.Order.{single_handler-sends}
use service_cloud_voice_lamb.Signals.Multi
use service_cloud_voice_lamb.Signals.Multi.Order.{multi_handler-sends}

-- If the file loads and gives the signals `all`, each of the two lambdas posts them in order: all of
-- them if it does not throw, and otherwise the first of them, up to the batch in which it fails.
pub handlers-IsSent :
    (svc : Services) (kept : Single.Kept) (e : Event) (t : List Call) (meta : Metadata)
    (a : Analysis) (contact : Contact) (all : List Signal)
    → (load_analysis svc e t).0 ≡ ok (some (meta, a))
    → (get_agent_timestamp svc meta (load_analysis svc e t).1).0 ≡ ok contact
    → request_signals a contact ≡ ok all
    → IsSent all t (Single.handler svc kept e t).1 (Single.handler svc kept e t).0
      × IsSent all t (Multi.handler svc e t).1 (Multi.handler svc e t).0
handlers-IsSent svc kept e t meta a contact all p q r = (
  single_handler-sends svc kept e t meta a contact all p q r,
  multi_handler-sends svc e t meta a contact all p q r,
)
