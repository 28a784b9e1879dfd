-- ===== src/Telemetry/Proper/Configuring.antt =====
-- `init` on a configuration in which no object has a key twice.
use sunbird_devops.Base.{Option, none, some, String, if◌then◌else◌}
use sunbird_devops.Js.Int.{ℤ, pos, geb_ℤ}
use sunbird_devops.Js.Value.{num, number, Value, Fields, truthy, get, fields}
use sunbird_devops.Js.Value.Proper.{
  IsProper, HasProperFields, get-IsProper, put-HasProperFields, assign-HasProperFields,
  fields-HasProperFields, if-IsProper, if-HasProperFields,
}
use sunbird_devops.Telemetry.Types.{Tele}
use sunbird_devops.Telemetry.Event.{with_content, put_if, update_configurations, batch_size, init}
use sunbird_devops.Telemetry.Proper.{IsProperTele, if-IsProperTele}

put_if-HasProperFields :
    (k : String) (config target : Fields)
    → HasProperFields config
    → HasProperFields target
    → HasProperFields (put_if k config target)
put_if-HasProperFields k config target hc ht =
    if-HasProperFields (truthy (get k config)) _ target
      (put-HasProperFields k (get k config) target (get-IsProper k config hc) ht) ht

update_configurations-IsProperTele :
    (config : Fields) (t : Tele)
    → HasProperFields config
    → IsProperTele t
    → IsProperTele (update_configurations config t)
unfolding update_configurations
update_configurations-IsProperTele config t hc h = record {
  proper_config = h.proper_config;
  proper_default = h.proper_default;
  proper_envelope = h.proper_envelope;
  proper_global_context = put_if-HasProperFields "pdata" config _ hc (
      put_if-HasProperFields "cdata" config _ hc (
        put_if-HasProperFields "did" config _ hc (
          put_if-HasProperFields "sid" config _ hc (
            put_if-HasProperFields "rollup" config _ hc (
              put_if-HasProperFields "env" config _ hc
                (put_if-HasProperFields "channel" config _ hc h.proper_global_context))))));
  proper_global_object =
      if-HasProperFields (truthy (get "object" config)) _ _
        (fields-HasProperFields _ (get-IsProper "object" config hc)) h.proper_global_object;
  proper_current_context = h.proper_current_context;
  proper_current_object = h.proper_current_object;
  proper_current_actor = h.proper_current_actor;
  proper_current_tags = h.proper_current_tags;
  proper_starts = h.proper_starts;
  proper_queue = h.proper_queue;
  proper_posts = h.proper_posts;
  proper_handed = h.proper_handed;
}

batch_size-IsProper :
    (given default : Value)
    → IsProper given
    → IsProper default
    → IsProper (batch_size given default)
unfolding batch_size
batch_size-IsProper given default hg hd =
    if-IsProper (truthy given) _ default (at_most (number given)) hd
  where
    at_most :
        (o : Option ℤ)
        → IsProper (elim o [
          | some n ↦ if geb_ℤ (pos 1000) n then given else num (pos 1000)
          | none ↦ given
        ])
    at_most none = hg
    at_most (some n) =
        if-IsProper (geb_ℤ (pos 1000) n) given (num (pos 1000)) hg (unfold IsProper in tt)

with_content-HasProperFields :
    (id ver : Value) (o : Fields)
    → IsProper id
    → IsProper ver
    → HasProperFields o
    → HasProperFields (with_content id ver o)
with_content-HasProperFields id ver o hi hv h =
    let named = if-HasProperFields (truthy id) _ o (put-HasProperFields "id" id o hi h) h in
    if-HasProperFields (truthy ver) _ _ (put-HasProperFields "ver" ver _ hv named) named

pub init-IsProperTele :
    (config id ver : Value) (t : Tele)
    → IsProper config
    → IsProper id
    → IsProper ver
    → IsProperTele t
    → IsProperTele (init config id ver t)
unfolding init
init-IsProperTele config id ver t hc hi hv h =
    let own = fields-HasProperFields config hc in
    let size =
      batch_size-IsProper _ _ (get-IsProper "batchsize" (fields config) own)
        (get-IsProper "batchsize" t.default_value h.proper_default) in
    let given = put-HasProperFields "batchsize" _ (fields config) size own in
    let merged = assign-HasProperFields t.default_value _ h.proper_default given in
    if-IsProperTele t.initialized t _ h (
      update_configurations-IsProperTele _ _ given (record {
        proper_config = merged;
        proper_default = merged;
        proper_envelope = h.proper_envelope;
        proper_global_context = h.proper_global_context;
        proper_global_object =
            with_content-HasProperFields id ver t.global_object hi hv h.proper_global_object;
        proper_current_context = h.proper_current_context;
        proper_current_object = h.proper_current_object;
        proper_current_actor = h.proper_current_actor;
        proper_current_tags = h.proper_current_tags;
        proper_starts = h.proper_starts;
        proper_queue = h.proper_queue;
        proper_posts = h.proper_posts;
        proper_handed = h.proper_handed;
      }))
