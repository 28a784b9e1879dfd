-- ===== src/Tests/Fixture.antt =====
-- A browser and a login page to run the scripts on: addresses are of the form
-- https://host/path?k=v&..., the text of an element is its markup, and every event is valid but
-- those of the kinds METRICS and SUMMARY, which no validator is there for.

use Prim.Native.String.{◌++◌}
use sunbird_devops.Base.{
  String, Bool, false, true, Option, none, some, List, [], ◌∷◌, ◌==◌, ◌||◌, if◌then◌else◌,
}
use sunbird_devops.Js.Text.{strip_prefix, before, split_from}
use sunbird_devops.Js.Value.{str, undefined}
use sunbird_devops.Telemetry.Types.{Envelope, initial_tele}
use sunbird_devops.Web.Dom.{Location, Element, Document}
use sunbird_devops.Web.Store.{Store}
use sunbird_devops.Web.Libs.{Libs}
use sunbird_devops.State.{Page}

-- the first value of a key, among the parts of a query
unfoldable find_part : String → List String → Option String
find_part key [] = none
find_part key (p ∷ ps) = elim (strip_prefix (key ++ "=") p) [
  | some v ↦ some v
  | none ↦ find_part key ps
]

abbrev of_query : String → Option String → Option String
of_query key none = none
of_query key (some parts) = find_part key (split_from b'&' "" parts)

unfoldable pub query_get : String → String → Option String
unfolding find_part strip_prefix split_from
query_get search key = of_query key (strip_prefix "?" search)

-- what stands from the first question mark on
unfoldable search_of : String → String
unfolding strip_prefix before
search_of url = elim (strip_prefix (before b'?' url) url) [ some s ↦ s | none ↦ "" ]

abbrev location_of : String → Option String → Option Location
location_of url none = none
location_of url (some rest) =
    let host = before b'/' rest in
    some (record {
      href = url;
      protocol = "https:";
      host = host;
      origin = "https://" ++ host;
      search = search_of url;
    })

unfoldable pub parse_url : String → Option Location
unfolding search_of strip_prefix before
parse_url url = location_of url (strip_prefix "https://" url)

abbrev pub validate : String → Envelope → Option Bool
validate id e =
    if id == "http://api.ekstep.org/telemetry/metrics"
      || id == "http://api.ekstep.org/telemetry/summary"
    then none
    else some true

abbrev pub libs : Libs
libs = record {
  query_get = query_get;
  parse_url = parse_url;
  encode_uri = λ s. s;
  text_of = λ s. s;
  html_of = λ s. s;
  class_list_add = λ c s. c ++ (" " ++ s);
  json_parse = λ s. none;
  digest = λ e. e.eid;
  validate = validate;
  uuid = λ n. "00000000-0000-1000-8000-000000000000";
}

-- `https://site/auth?` and a query
abbrev pub address : String → Location
address query = record {
  href = "https://login.example.org/auth?" ++ query;
  protocol = "https:";
  host = "login.example.org";
  origin = "https://login.example.org";
  search = "?" ++ query;
}

abbrev pub element : String → Element
element class_name = record {
  tag = "div";
  class_name = class_name;
  inner_html = "";
  href = "";
  value = "";
  kind = "";
  disabled = false;
  display = "";
}

-- A page at an address, with its session and its elements.
abbrev pub page : Location → Store → Document → Page
page url session doc = record {
  now = 1700000000000;
  location = url;
  session = session;
  storage = [];
  doc = doc;
  assigned = none;
  timers = [];
  requests = [];
  org_info = undefined;
  host_url = "https://login.example.org";
  pdata_id = str "preprod.diksha.portal";
  tenant_slug = undefined;
  user_agent = "";
  tele = initial_tele;
}
