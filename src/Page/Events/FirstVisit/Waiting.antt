-- ===== src/Page/Events/FirstVisit/Waiting.antt =====
-- The first event on a freshly loaded page, while it waits for the fingerprint.
use sunbird_devops.Telemetry.Proper.Configuring.{init-IsProperTele}
use sunbird_devops.Base.{[], ◌≡◌, refl, ◌∙◌, ap, false, none, if◌then◌else◌}
use sunbird_devops.Js.Int.{pos}
use sunbird_devops.Js.Value.{
  Value, undefined, num, str, Fields, end, truthy, get, put, has, assign, fields,
}
use sunbird_devops.Js.Value.Laws.{
  get-put_self, assign-other, HasDistinctKeys, get-assign, get-assign_empty,
}
use sunbird_devops.Telemetry.Proper.{initial-IsProperTele}
use sunbird_devops.Js.Value.Proper.{
  HasProperFields-HasDistinctKeys, if-IsProper, IsProper, HasProperFields, get-IsProper,
  fields-HasProperFields,
}
use sunbird_devops.Web.Libs.{Libs}
use sunbird_devops.State.{Page, on_tele}
use sunbird_devops.Telemetry.Event.Globals.{globals, globals-did}
use sunbird_devops.Telemetry.Types.{Tele, Dispatcher, initial_tele, initial_context}
use sunbird_devops.Telemetry.Event.{
  update_configurations, batch_size, init, update_values, updated_context, get_event,
}
use sunbird_devops.Telemetry.Dispatch.{is_text, known_device}
use sunbird_devops.Telemetry.Api.{prepare}
use sunbird_devops.Telemetry.Api.LateFingerprint.{HoldsBack}
use sunbird_devops.Page.Events.{hash_tag, get_anonymous_user_config, event_options, batch_of_one}
use sunbird_devops.Page.Events.Posted.{page_view}

module _ (lib : Libs) (w : Page) where
  -- the library after `initTelemetryService`
  abbrev pub configured : Tele
  configured = init (get_anonymous_user_config lib w) undefined undefined initial_tele

  -- what `initialize` is given, with the batch size
  abbrev pub given : Fields
  given = put "batchsize" (num (pos 20)) (fields (get_anonymous_user_config lib w))

  configured-globals : configured.global_context ≡ globals given initial_context
  unfolding init update_configurations get_anonymous_user_config batch_size get put
  configured-globals = refl

  configured-did : get "did" configured.global_context ≡ str ""
  unfolding get_anonymous_user_config get put
  configured-did = ap (get "did") configured-globals ∙ globals-did given initial_context refl

  configured-checks : configured.enable_validation ≡ Value.bool false
  unfolding init update_configurations get_anonymous_user_config batch_size get put
  configured-checks = refl

  configured-dispatcher : configured.dispatcher ≡ Dispatcher.library
  unfolding init update_configurations get_anonymous_user_config batch_size get put assign
  configured-dispatcher = refl

  configured-env : configured.running_env ≡ str "client"
  unfolding init update_configurations get_anonymous_user_config batch_size get put assign
  configured-env = refl

  configured-posts :
      (configured.posts ≡ []) × (configured.queue ≡ []) × (configured.finger_print_id ≡ none)
  unfolding init update_configurations get_anonymous_user_config batch_size get put assign
  configured-posts = (refl, refl, refl)

  -- the context that the event is given
  abbrev pub options : Value
  options = event_options (hash_tag w.org_info) w.org_info

  abbrev pub ready : Page
  ready = on_tele batch_of_one (record w { tele = configured })

  abbrev pub noted : Tele
  noted = (prepare "IMPRESSION" (page_view lib "init" w) options ready).1.tele

  abbrev pub updated : Tele
  updated = update_values options ready.tele

  updated-has_did : has "did" (updated_context updated) ≡ false
  unfolding update_values updated_context event_options get has
  updated-has_did = refl

  updated-globals : updated.global_context ≡ configured.global_context
  unfolding update_values event_options
  updated-globals = refl

  updated-env : updated.running_env ≡ configured.running_env
  unfolding update_values event_options get
  updated-env = refl

  updated-checks : updated.enable_validation ≡ configured.enable_validation
  unfolding update_values event_options
  updated-checks = refl

  updated-dispatcher : updated.dispatcher ≡ configured.dispatcher
  unfolding update_values event_options
  updated-dispatcher = refl

  updated-unknown : updated.finger_print_id ≡ none
  unfolding update_values event_options init update_configurations
  updated-unknown = refl

  configured-IsProper :
      IsProper w.org_info → IsProper w.pdata_id → HasProperFields configured.global_context
  unfolding get_anonymous_user_config IsProper HasProperFields has
  configured-IsProper h hp =
      let tag =
        get-IsProper "hashTagId" (fields w.org_info) (fields-HasProperFields w.org_info h) in
      let channel = if-IsProper (truthy w.org_info) _ w.org_info tag h in
      (init-IsProperTele (get_anonymous_user_config lib w) undefined undefined initial_tele
        (
          refl,
          (refl, hp, (refl, tt, (refl, tt, tt))),
          (
            refl,
            tt,
            (refl, tt, (refl, tt, (refl, tt, (refl, tt, (refl, channel, (refl, tt, tt)))))),
          ),
        )
        tt tt initial-IsProperTele).proper_global_context

  pub noted-did :
      IsProper w.org_info → IsProper w.pdata_id → get "did" noted.envelope.context ≡ str ""
  unfolding prepare get_event
  noted-did h hp =
      assign-other "did" (assign end updated.global_context) (updated_context updated)
        updated-has_did
      ∙ ap (λ o. get "did" (assign end o)) updated-globals
      ∙ get-assign_empty "did" configured.global_context
          (HasProperFields-HasDistinctKeys _ (configured-IsProper h hp))
      ∙ configured-did

  pub noted-HoldsBack :
      IsProper w.org_info
      → IsProper w.pdata_id
      → HoldsBack (prepare "IMPRESSION" (page_view lib "init" w) options ready).1
  unfolding prepare
  noted-HoldsBack h hp = record {
    unchecked = ap truthy (updated-checks ∙ configured-checks);
    client = ap (is_text "client") (updated-env ∙ configured-env);
    no_device = ap truthy (noted-did h hp);
    unknown = ap known_device updated-unknown;
    standard = updated-dispatcher ∙ configured-dispatcher;
  }

  pub noted-channel : get "channel" noted.envelope.context ≡ hash_tag w.org_info
  unfolding prepare get_event
  noted-channel =
      get-assign "channel" (assign end updated.global_context) (updated_context updated) distinct
      ∙ own_channel
    where
      distinct : HasDistinctKeys (updated_context updated)
      distinct =
          unfold update_values updated_context event_options get has in
          (refl, (refl, (refl, (refl, (refl, tt)))))

      own_channel :
          (if has "channel" (updated_context updated)
            then get "channel" (updated_context updated)
            else get "channel" (assign end updated.global_context))
          ≡ hash_tag w.org_info
      own_channel = unfold update_values updated_context event_options get has in refl

  pub noted-empty :
      (noted.posts ≡ [])
      × (noted.queue ≡ [])
      × (noted.waiting ≡ 0)
      × (get "batchsize" noted.config ≡ num (pos 1))
      × (noted.envelope.eid ≡ "IMPRESSION")
      × (noted.envelope.edata ≡ page_view lib "init" w)
  unfolding prepare get_event update_values event_options init update_configurations
  noted-empty =
      (refl, refl, refl, get-put_self "batchsize" (num (pos 1)) configured.config, refl, refl)
