-- ===== src/Telemetry/Proper.antt =====
-- The variables of `Telemetry` whose objects have no key twice.
pub mod Configuring
use sunbird_devops.Base.{
  ℕ, String, refl, Bool, true, false, List, All, Bool-cases, inl, inr, if◌then◌else◌,
}
use sunbird_devops.Js.Value.{has, Value, obj, arr, nil, end, Fields, truthy, get, or_else}
use sunbird_devops.Js.Value.Proper.{
  IsProper, HasProperFields, HasProperItems, get-IsProper, assign-HasProperFields,
  assign_items-HasProperItems, fields-HasProperFields, items-HasProperItems, if-IsProper,
}
use sunbird_devops.Telemetry.Types.{Envelope, Post, Tele, initial_tele}
use sunbird_devops.Telemetry.Event.{
  update_values, updated_context, updated_object, updated_actor, updated_tags, get_event,
}

pub record IsProperEvent (e : Envelope) : Type 0 where
  pub proper_ver : IsProper e.ver
  pub proper_actor : HasProperFields e.actor
  pub proper_context : HasProperFields e.context
  pub proper_object : HasProperFields e.object
  pub proper_tags : HasProperItems e.tags
  pub proper_edata : IsProper e.edata

abbrev AreProper : List Envelope → Type 0
AreProper = All IsProperEvent

abbrev IsProperPost : Post → Type 0
IsProperPost p = AreProper p.events

-- No object in the variables has a key twice, and no event that is kept, queued or sent has one
-- that does.
pub record IsProperTele (t : Tele) : Type 0 where
  pub proper_config : HasProperFields t.config
  pub proper_default : HasProperFields t.default_value
  pub proper_envelope : IsProperEvent t.envelope
  pub proper_global_context : HasProperFields t.global_context
  pub proper_global_object : HasProperFields t.global_object
  pub proper_current_context : IsProper t.current_context
  pub proper_current_object : IsProper t.current_object
  pub proper_current_actor : IsProper t.current_actor
  pub proper_current_tags : IsProper t.current_tags
  pub proper_starts : AreProper t.start_data
  pub proper_queue : AreProper t.queue
  pub proper_posts : All IsProperPost t.posts
  pub proper_handed : AreProper t.handed

pub if-IsProperTele :
    (b : Bool) (t u : Tele) → IsProperTele t → IsProperTele u → IsProperTele (if b then t else u)
if-IsProperTele true t u ht hu = ht
if-IsProperTele false t u ht hu = hu

pub initial-IsProperTele : IsProperTele initial_tele
unfolding IsProper HasProperFields HasProperItems has
initial-IsProperTele = record {
  proper_config = tt;
  proper_default = (refl, tt, (refl, tt, (refl, tt, (refl, tt, (refl, tt, (refl, tt, tt))))));
  proper_envelope = record {
    proper_ver = tt;
    proper_actor = tt;
    proper_context = tt;
    proper_object = tt;
    proper_tags = tt;
    proper_edata = tt;
  };
  proper_global_context = (
    refl,
    tt,
    (
      refl,
      (refl, tt, (refl, tt, (refl, tt, tt))),
      (refl, tt, (refl, tt, (refl, tt, (refl, tt, (refl, tt, tt))))),
    ),
  );
  proper_global_object = tt;
  proper_current_context = tt;
  proper_current_object = tt;
  proper_current_actor = tt;
  proper_current_tags = tt;
  proper_starts = tt;
  proper_queue = tt;
  proper_posts = tt;
  proper_handed = tt;
}
