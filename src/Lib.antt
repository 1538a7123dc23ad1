-- ===== src/Lib.antt =====
-- Service Cloud Voice Lambdas: AWS Lambda functions between an Amazon Connect instance and
-- Salesforce Service Cloud Voice. This library models the functions that carry calls, records,
-- transcripts, signals and voicemails, and proves what makes them correct.
--
-- The parts and how they interact. Contact flows, and the other lambdas, invoke
-- invokeTelephonyIntegrationApi with a method name; it reads the secret of the org, signs a token and
-- makes one request of the Salesforce telephony API; it also stores in S3 which secret belongs to a
-- contact. invokeSfRestApi does the same for the Salesforce REST API, with an access token that it
-- renews, and invokeVfsIntegrationApi for voicemail drops, greetings and outbound numbers.
-- contactLensProcessor takes the live transcript of calls from a Kinesis stream and sends it to
-- Salesforce in one bulk request with retries. postCallAnalysisTrigger posts the sentiments of a
-- finished call in batches. handleContactEvents hands the events of contacts to
-- invokeTelephonyIntegrationApi. voiceMailAudioProcessing stores the recording of a voicemail in S3
-- with tags; voiceMailTranscribe starts its transcription, and then voiceMailPackaging makes the call a voicemail through
-- invokeTelephonyIntegrationApi. When a call has ended, ctrDataSync turns its contact record into an
-- update of the voice call, and contactDataSync sends the transcripts of earlier calls again through
-- invokeSfRestApi. contactLensConsumer hands the records of the stream to contactLensProcessor,
-- kvsConsumerTrigger starts the transcription of a call, and realtimeAlert makes alerts of alarms
-- through invokeSfRestApi. authKeysSSMUtil makes the key pairs and stores them in the secrets that the
-- others read. The lambdas whose names start with multiorg do what the others do for
-- several orgs: they look up the secret of the contact in the cache in S3.
--
-- The files.
-- - Common and below: what the parts share. Effect is code that awaits services and may throw, with
--   the trace of the calls it made; Trace, Cost, Returns and Succeeds are rules for what calls are made,
--   what they weigh, what is returned, and that nothing is thrown; Object, Lists, Text, Tests and Int
--   are JavaScript's objects, arrays, texts, truth and numbers as far as the code uses them.
-- - ContactLens: contactLensProcessor. Calls has the data and the services, Secrets is
--   contactLensProcessor/secretUtils.js and the token of utils.js beside it, Bulk is
--   contactLensProcessor/telephonyIntegrationApi.js (sendMessagesInBulk and its retries), Batch is
--   contactLensProcessor/handler.js with the payloads of utils.js. Below them, Bulk/Delivery is on what is sent again,
--   Bulk/Bounds on how often, Batch/Collect on the loop over the records, Batch/Linked on its
--   invariant, Batch/Entries and Batch/Mixed on the entries and the secret of the request. Consumer is contactLensConsumer/handler.js, Consumer/Multi
--   is multiorgContactLensConsumer/handler.js and cacheUtils.js; Consumer/Forwarded is on what they hand
--   over, Consumer/Linked on the names of the secrets, Consumer/Stored on the cache they come from.
-- - Telephony: the files of invokeTelephonyIntegrationApi/. Secrets is secretUtils.js and the token of utils.js,
--   Attributes the filters of utils.js, Cache is cacheUtils.js, Api is telephonyIntegrationApi.js,
--   Fields what handler.js reads out of an event, Handler its switch and what stands around it. Below
--   Handler, Rules and Dispatch hold lemmas, Requests is on the requests, Names on the secret,
--   Caching on what is stored.
-- - Sf: the files of invokeSfRestApi/. Json is the values that a response may hold, Calls the data and
--   the services, Secrets is secretUtils.js, Token the access token of utils.js, Api is sfRestApi.js,
--   Query is queryEngine.js, Phone is SFSPhoneCallFlow.js, Numbers the three flows that fetch a phone
--   number or a greeting, Handler is handler.js with the parameters that utils.js reads. Below them,
--   Token/Stored is on a token that was stored, Api/Recovery and Api/Requests on requests and their
--   retry, Query/Last on the arguments of a query, Phone/Screen on the check of a caller's number,
--   Handler/Fields on the fields of a record.
-- - Signals: postCallAnalysisTrigger, and multiorgPostCallAnalysisTrigger. Key is the key of the file,
--   Chunks the batches, Analysis what the two handlers have in common, Single and Multi the rest of
--   each. Key/Shape is on the keys that are read, Posted has rules for the signals that are posted,
--   Order, Single/Order and Multi/Order are on their order, Multi/Secret on the secret and the batches.
-- - ContactEvents: Rules is utils.js of handleContactEvents, with the test of multiorgHandleContactEvents that
--   differs, Single and Multi are the handlers. Multi/Forwarded is on what reaches the model of
--   invokeTelephonyIntegrationApi.
-- - Vfs: the files of invokeVfsIntegrationApi/. Escape is the escaping of parameters, Handler the rest;
--   Handler/Requests is on its requests.
-- - DataSync: the files of contactDataSync/. Transcript and Paths are awsUtils.js, Upload is transcriptUploader.js
--   with sfRestApi.js, Handler is handler.js with fetchUploadIdsStatus.js; Handler/Batches is on the size of an
--   upload.
-- - Ctr: the files of ctrDataSync/. Records has the data, Attributes and Transform are utils.js, Sync is handler.js;
--   Sync/Updates is on the updates of a batch, Sync/Served on what the model of
--   invokeTelephonyIntegrationApi makes of them.
-- - Voicemail: Decoder and Audio are voiceMailAudioProcessing/handler.js (the listener on the stream,
--   and the loop over the records with the variables of the module; Audio/Loop is on a run, Audio/Kept on
--   what a run leaves to the next one), Packaging is
--   voiceMailPackaging/handler.js, Transcribe is voiceMailTranscribe/handler.js, with Transcribe/Names on the
--   names that the two have in common. Multiorg is multiorgVoiceMailPackaging; Multiorg/Simulation compares it
--   with Packaging. Pipeline follows a voicemail through Audio, Transcribe and Packaging, with
--   Pipeline/Uploads on what is stored. Served has the events that the invocations of Packaging and Multiorg are
--   for invokeTelephonyIntegrationApi, and is on the requests that these make.
-- - Keys: the files of authKeysSSMUtil/. Calls has the data and the services, Secrets is secretUtils.js, Handler
--   is index.js; Stored is on what invokeTelephonyIntegrationApi reads back.
-- - Kvs: kvsConsumerTrigger/kvs_trigger.js, with Kvs/Started on what is started and answered.
-- - Http: the retries that axiosWrapper.js sets up in contactLensProcessor, postCallAnalysisTrigger and
--   multiorgPostCallAnalysisTrigger. Http/Retry has axios-retry as a record of its documented laws, Http/Bounds
--   is on what is sent again, and on the waits. The other parts count a request with its retries as one call.
-- - Alerts: realtimeAlert/handler.js, with Alerts/Fields on the record that invokeSfRestApi creates.
-- Modules named Examples hold runs and the properties at concrete inputs.
--
-- Conventions. `undefined`, `null` and a missing property are `none`. An object is the list of its
-- properties in the order of insertion, with keys that are not array indices. A JSON text that the
-- code builds is kept as the object it is the text of, and a parsed one is given as that object.
-- Texts are sequences of characters; the case of letters is that of ASCII. An error is its text, or,
-- where the code reads more of it, a value with the parts that are read.
--
-- Services (AWS, the Salesforce endpoints, the clock, the JWT, EBML and WAV libraries) are not part of
-- the repository: they are functions from the trace of the calls made so far to their answer, so that
-- they may answer differently each time, and a theorem holds for all of them unless it names a
-- condition. In Sf, the library flat, and the text of a value that is not one, are functions of the
-- same record. A promise runs when it is made; one that is not awaited on the spot is kept as its
-- outcome. Loops are structural; those with a bound in the code (three rounds of retries, four
-- attempts at routing) recurse on the number of rounds that are left, which is the code's own bound.
-- The loop that cuts signals into batches has one round for each signal and one more as its fuel,
-- which is enough for every positive size of a batch.
--
-- Not modelled: logging; base64, and the text of JSON; the cache and the extension in front of
-- Secrets Manager, of which only the answer counts; counters that serve tests; functions that
-- nothing calls (storeInCache in multiorgHandleContactEvents and multiorgPostCallAnalysisTrigger,
-- getAccessSecretConfigs, getSSMParameterValue), and copies of functions that are modelled; the
-- names that are cut out of the location of a video stream; how the WAV library encodes the audio;
-- how key pairs are made; the calendar of time stamps.
pub mod Common
pub mod ContactLens
pub mod Telephony
pub mod Ctr
pub mod Sf
pub mod Signals
pub mod ContactEvents
pub mod Vfs
pub mod DataSync
pub mod Voicemail
pub mod Keys
pub mod Kvs
pub mod Alerts
pub mod Http
