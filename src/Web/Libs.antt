-- ===== src/Web/Libs.antt =====
-- What the page calls and does not implement: the browser's URL, markup and JSON functions, and
-- the bundled libraries (CryptoJS, Ajv, uuid).
use sunbird_devops.Base.{ℕ, String, Bool, Option}
use sunbird_devops.Js.Value.{Value}
use sunbird_devops.Web.Dom.{Location}
use sunbird_devops.Telemetry.Types.{Envelope}

pub record Libs : Type 0 where
  -- `(new URLSearchParams(search)).get(key)`
  pub query_get : String → String → Option String
  -- `new URL(text)`; `none` is its TypeError
  pub parse_url : String → Option Location
  -- `encodeURI(text)`
  pub encode_uri : String → String
  -- `innerText` of an element with this markup, and the markup of an element with this text
  pub text_of : String → String
  pub html_of : String → String
  -- `classList.add` on a `class` attribute
  pub class_list_add : String → String → String
  -- `JSON.parse(text)`; `none` is its SyntaxError
  pub json_parse : String → Option Value
  -- `CryptoJS.MD5(JSON.stringify(message)).toString()`
  pub digest : Envelope → String
  -- `ajv.getSchema(id)(message)`; `none` where there is no such schema
  pub validate : String → Envelope → Option Bool
  -- `window.uuidv1()` at a time
  pub uuid : ℕ → String
