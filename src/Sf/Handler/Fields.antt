-- ===== src/Sf/Handler/Fields.antt =====
-- The field values that invokeSfRestApi/utils.js takes from the parameters.
use service_cloud_voice_lamb.Common.{◌≡◌, String, Bool, none, [], ◌∷◌, if◌then◌else◌, arith, eq_iff}
use service_cloud_voice_lamb.Common.Object.{Object, get}
use service_cloud_voice_lamb.Sf.Handler.{keep_fields, is_non_field, get_s_object_field_values}

get-keep_fields :
    (excluded : String → Bool) (k : String) (o : Object String)
    → get k (keep_fields excluded o) ≡ (if excluded k then none else get k o)
get-keep_fields excluded k [] = ground arith
get-keep_fields excluded k ((j, v) ∷ o) = grind (arith, eq_iff j k, get-keep_fields excluded k o)

-- The record is created and updated with all the parameters of the event, and with their values,
-- but for the five that say what to do with it.
pub get-field_values :
    (params : Object String) (k : String)
    → get k (get_s_object_field_values params) ≡ (if is_non_field k then none else get k params)
unfolding get_s_object_field_values
get-field_values params k = get-keep_fields is_non_field k params
