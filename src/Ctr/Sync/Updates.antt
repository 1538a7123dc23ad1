-- ===== src/Ctr/Sync/Updates.antt =====
-- The updates that ctrDataSync sends for a batch.
use service_cloud_voice_lamb.Common.{
  ◌≡◌, refl, sym, ◌∙◌, String, Bool, true, false, List, [], ◌∷◌, ◌++◌, if◌then◌else◌, append_assoc,
  append-nil,
}
use service_cloud_voice_lamb.Common.Effect.{
  Result, ok, throw, Exec, pure, lift, settle, all_settled, continue, ◌>>=◌,
}
use service_cloud_voice_lamb.Ctr.Records.{Ctr, Update, Call, update_voice_call, Services}
use service_cloud_voice_lamb.Ctr.Transform.{transform_ctr}
use service_cloud_voice_lamb.Ctr.Sync.{
  should_process_ctr, update_voice_call_record, sync_records, handler,
}

abbrev pub send_then : Result Update → List Call → List Call
send_then (ok u) rest = update_voice_call u ∷ rest
send_then (throw e) rest = []

-- The updates of a batch, in its order: those of the records that are synchronised, up to the first
-- of them that cannot be translated.
abbrev pub updates : List Ctr → List Call
updates [] = []
updates (c ∷ records) =
    let rest = updates records in
    if should_process_ctr c then send_then (transform_ctr c) rest else rest

Traced : Services → List Ctr → Type 0
Traced svc records =
    (promises : List (Result String)) (t : List Call)
    → (sync_records svc records promises t).1 ≡ t ++ updates records

translated :
    (svc : Services) (records : List Ctr) (r : Result Update) (promises : List (Result String))
    (t : List Call)
    → Traced svc records
    → ((do
      u ← lift r
      promise ← settle (update_voice_call_record svc u)
      sync_records svc records (promises ++ promise ∷ []))
        t).1
      ≡ t ++ send_then r (updates records)
unfolding Traced update_voice_call_record ◌>>=◌
translated svc records (ok u) promises t h = h _ _ ∙ append_assoc t (update_voice_call u ∷ []) _
translated svc records (throw e) promises t h = sym (append-nil t)

chosen :
    (b : Bool) (m n : Exec Call (List (Result String))) (t u v : List Call)
    → (m t).1 ≡ t ++ u
    → (n t).1 ≡ t ++ v
    → ((if b then m else n) t).1 ≡ t ++ (if b then u else v)
chosen true m n t u v p q = p
chosen false m n t u v p q = q

pure_path :
    (promises : List (Result String)) (t : List Call)
    → (pure {E = String} {C = Call} promises t).1 ≡ t ++ []
unfolding pure
pure_path promises t = sym (append-nil t)

sync_records-Traced : (svc : Services) (records : List Ctr) → Traced svc records
unfolding Traced sync_records
sync_records-Traced svc [] promises t = pure_path promises t
sync_records-Traced svc (c ∷ records) promises t =
    chosen _ _ _ t _ _
      (translated svc records (transform_ctr c) promises t (sync_records-Traced svc records))
      (sync_records-Traced svc records promises t)

settled-trace :
    (r : Result (List (Result String))) (t : List Call)
    → (continue r (λ promises. lift (all_settled promises)) t).1 ≡ t
unfolding ◌>>=◌
settled-trace (ok promises) t = refl
settled-trace (throw e) t = refl

-- Whatever the telephony lambda answers, and even if its invocations fail, the lambda invokes it
-- once for every record of the batch that is to be synchronised, in the order of the batch, with
-- the translation of the record, up to the first of them that cannot be translated; it makes no
-- other call.
pub handler-updates :
    (svc : Services) (records : List Ctr) (t : List Call)
    → (handler svc records t).1 ≡ t ++ updates records
unfolding handler Traced ◌>>=◌
handler-updates svc records t =
    settled-trace (sync_records svc records [] t).0 _ ∙ sync_records-Traced svc records [] t
