-- ===== src/Page/Startup/Failure.antt =====
-- A login page whose address names no client.
use sunbird_devops.Base.{◌≡◌, refl, none, ⊤}
use sunbird_devops.Web.Libs.{Libs}
use sunbird_devops.State.{Page, Error, M, throw, modify, ◌>>◌}
use sunbird_devops.State.Laws.{continue_of_throw}
use sunbird_devops.Page.Session.{query, initialize}
use sunbird_devops.Page.Events.{on_load}
use sunbird_devops.Page.Startup.{host_of_location, look_at_client, choose_pdata, start_up}

look_at_client-missing :
    (lib : Libs) (w : Page)
    → query lib "client_id" w ≡ none
    → look_at_client lib w ≡ (throw Error.null_property, w)
unfolding look_at_client
look_at_client-missing lib w h = rw (h, look_at_client) refl

-- the statements behind the look at `client_id`
abbrev pub after_client : Libs → M ⊤
after_client lib = do
  modify (λ w. record w { host_url = host_of_location w.location })
  on_load lib
  initialize lib

stops :
    (lib : Libs) (w : Page)
    → query lib "client_id" w ≡ none
    → start_up lib w ≡ (throw Error.null_property, choose_pdata lib w)
unfolding start_up
stops lib w h =
    continue_of_throw (λ _ v. after_client lib v)
      (look_at_client-missing lib (choose_pdata lib w) h)

-- If the address has no `client_id`, the script's top level throws before it asks for the
-- organisation and before it notes the session url: no request is made, and the session stays as
-- it was.
pub start_up-no_client :
    (lib : Libs) (w : Page)
    → query lib "client_id" w ≡ none
    → ((start_up lib w).0 ≡ throw Error.null_property)
      × ((start_up lib w).1.requests ≡ w.requests)
      × ((start_up lib w).1.session ≡ w.session)
start_up-no_client lib w h = rw (stops lib w h) (refl, refl, refl)
